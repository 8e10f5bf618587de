-- ===== src/Broker/Versions.antt =====
-- The versions that unyport/backend/sse/broker.go looks for among the tags of a repository, and
-- their cache. A part of a version is a number without a sign; `number` is what fmt.Sscanf reads.
-- Times are whole seconds.
pub mod Laws
use Prim.Native.Nat.{Ordering}
use Prim.Native.String.{◌++◌}
use unyport.Common.{
  ℕ, zero, suc, ◌-◌, String, Bool, true, false, not, ◌&&◌, ◌||◌, Option, none, some, List, [], ◌∷◌,
  ◌==◌, ltb, length, if◌then◌else◌,
}
use unyport.Common.Text.{trim_space, split}

abbrev pub first : (String → ℕ) → List String → ℕ
first number [] = 0
first number (p ∷ ps) = number p

abbrev pub others : List String → List String
others [] = []
others (p ∷ ps) = ps

abbrev pub decide : ℕ → ℕ → Ordering → Ordering
decide a b rest = if ltb b a then Ordering.gt else if ltb a b then Ordering.lt else rest

-- The loop over the first parts; a part that is missing counts as 0.
unfoldable pub compare_parts : (String → ℕ) → ℕ → List String → List String → Ordering
compare_parts number zero pa pb = Ordering.eq
compare_parts number (suc n) pa pb =
    decide (first number pa) (first number pb) (compare_parts number n (others pa) (others pb))

abbrev pub larger : ℕ → ℕ → ℕ
larger m n = if ltb m n then n else m

abbrev pub compare_split : (String → ℕ) → List String → List String → Ordering
compare_split number pa pb = compare_parts number (larger (length pa) (length pb)) pa pb

-- compareDotVersions; gt stands for 1, eq for 0, lt for -1
unfoldable pub compare_dot_versions : (String → ℕ) → String → String → Ordering
unfolding compare_parts
compare_dot_versions number a b =
    if a == b
    then Ordering.eq
    else if b == ""
    then Ordering.gt
    else compare_split number (split b'.' a) (split b'.' b)

abbrev pub is_greater : Ordering → Bool
is_greater Ordering.gt = true
is_greater Ordering.eq = false
is_greater Ordering.lt = false

module _ (number : String → ℕ) (matching : String → Option String) where
  abbrev pub better : Option String → String → String
  better none best = best
  better (some m) best = if is_greater (compare_dot_versions number m best) then m else best

  unfoldable pub highest_from : String → List String → String
  highest_from best [] = best
  highest_from best (t ∷ ts) = highest_from (better (matching (trim_space t)) best) ts

  -- highestVersionFromTagNames; `matching` gives the first group of the pattern
  unfoldable pub highest_version_from_tag_names : List String → String
  unfolding highest_from
  highest_version_from_tag_names tags = highest_from "" tags

abbrev not_blank : String → List String → List String
not_blank name rest = if trim_space name == "" then rest else name ∷ rest

unfoldable tag_names : List String → List String
tag_names [] = []
tag_names (t ∷ ts) = not_blank t (tag_names ts)

abbrev with_lts : String → String
with_lts v = if v == "" then "" else v ++ "-lts"

abbrev versions_of_tags :
    (String → ℕ)
    → (String → Option String)
    → (String → Option String)
    → Option (List String)
    → Option (String × String)
versions_of_tags number kernel alpine none = none
versions_of_tags number kernel alpine (some tags) = some (
  with_lts (highest_version_from_tag_names number kernel (tag_names tags)),
  highest_version_from_tag_names number alpine (tag_names tags),
)

-- fetchLatestRepoVersions; `answer` is the tags of the reply, none where the request fails, its
-- status is not 2xx or its body does not decode
unfoldable pub fetch_latest_repo_versions :
    (String → ℕ)
    → (String → Option String)
    → (String → Option String)
    → Option (List String)
    → Option (String × String)
unfolding tag_names
fetch_latest_repo_versions number kernel alpine answer =
    versions_of_tags number kernel alpine answer

-- The fields versionsKernel, versionsAlpine and versionsChecked of the broker.
pub record VersionCache : Type 0 where
  pub kernel : String
  pub alpine : String
  pub checked : Option ℕ

abbrev pub is_fresh : ℕ → Option ℕ → Bool
is_fresh now none = false
is_fresh now (some at) = ltb (now - at) 3600

abbrev pub refreshed : ℕ → Option (String × String) → VersionCache → VersionCache
refreshed now none v = record v { checked = some now }
refreshed now (some (kernel, alpine)) v = record {
  kernel = kernel;
  alpine = alpine;
  checked = some now;
}

pub record VersionsReply : Type 0 where
  pub kernel_lts : String
  pub alpine : String
  pub role : String
  pub available : Bool

abbrev pub reply_of : String → VersionCache → VersionsReply
reply_of role v = record {
  kernel_lts = trim_space v.kernel;
  alpine = trim_space v.alpine;
  role = role;
  available = not (v.kernel == "") || not (v.alpine == "");
}

-- The slug of the host's role, from the fields of HostRole.
unfoldable pub role_slug : String → String → String → String
role_slug virtualization virtualization_role environment =
    if virtualization == "xen" && virtualization_role == "domu"
    then "domU"
    else if environment == "vm"
    then "domU"
    else "dom0"

-- VersionsHandler; `fetched` is what the fetcher gives if it is called
unfoldable pub versions_handler :
    ℕ → String → Option (String × String) → VersionCache → VersionsReply × VersionCache
versions_handler now role fetched v =
    let v' = if is_fresh now v.checked then v else refreshed now fetched v in (reply_of role v', v')

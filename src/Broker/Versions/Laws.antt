-- ===== src/Broker/Versions/Laws.antt =====
-- The version that the program offers is the highest of the tags.
use Prim.Native.Nat.{Ordering}
use unyport.Common.{
  ℕ, zero, suc, ◌+◌, ◌≤◌, ◌<◌, ◌-◌, ◌≡◌, ◌≢◌, refl, ap, sym, ◌∙◌, inl, inr, ◌⊎◌, String, true,
  false, Option, none, some, List, [], ◌∷◌, ◌==◌, eq_iff, eq_refl, arith, ltb, length, Bool-cases,
  Option-cases, All,
}
use unyport.Common.Dict.{listed}
use unyport.Common.Text.{trim_space, split}
use unyport.Broker.Versions.{
  first, others, decide, compare_parts, larger, compare_split, compare_dot_versions, is_greater,
  better, highest_from, highest_version_from_tag_names, VersionCache, is_fresh, versions_handler,
}

module _ (number : String → ℕ) where
  length-others : (n : ℕ) (p : List String) → length p ≤ suc n → length (others p) ≤ n
  length-others n [] h = omega arith
  length-others n (x ∷ p) h = omega (arith, h)

  compare_nothing :
      (n : ℕ) (a b : List String)
      → length a ≤ 0
      → length b ≤ 0
      → compare_parts number n a b ≡ Ordering.eq
  unfolding compare_parts
  compare_nothing zero a b ha hb = refl
  compare_nothing (suc n) [] [] ha hb = ground (arith, compare_nothing n [] [] ha hb)
  compare_nothing (suc n) [] (y ∷ b) ha hb = absurd (omega (arith, hb))
  compare_nothing (suc n) (x ∷ a) b ha hb = absurd (omega (arith, ha))

  -- More rounds than the longer list has parts change nothing.
  compare_more :
      (n m : ℕ) (a b : List String)
      → n ≤ m
      → length a ≤ n
      → length b ≤ n
      → compare_parts number m a b ≡ compare_parts number n a b
  unfolding compare_parts
  compare_more zero m a b h ha hb = compare_nothing m a b ha hb
  compare_more (suc n) zero a b h ha hb = absurd (omega (arith, h))
  compare_more (suc n) (suc m) a b h ha hb = ap (decide (first number a) (first number b)) (
      compare_more n m (others a) (others b) (omega (arith, h)) (length-others n a ha)
        (length-others n b hb))

  compare_trans :
      (n : ℕ) (a b c : List String)
      → is_greater (compare_parts number n a b) ≡ false
      → is_greater (compare_parts number n b c) ≡ false
      → is_greater (compare_parts number n a c) ≡ false
  unfolding compare_parts
  compare_trans zero a b c f g = refl
  compare_trans (suc n) a b c f g =
      ground (arith, f, g, compare_trans n (others a) (others b) (others c))

  compare_total :
      (n : ℕ) (a b : List String)
      → is_greater (compare_parts number n a b) ≡ true
      → is_greater (compare_parts number n b a) ≡ false
  unfolding compare_parts
  compare_total zero a b f = refl
  compare_total (suc n) a b f = ground (arith, f, compare_total n (others a) (others b))

  split_more :
      (m : ℕ) (a b : List String)
      → length a ≤ m
      → length b ≤ m
      → compare_split number a b ≡ compare_parts number m a b
  split_more m a b ha hb = sym (
      compare_more (larger (length a) (length b)) m a b (ground arith) (ground arith)
        (ground arith))

  split_trans :
      (a b c : List String)
      → is_greater (compare_split number a b) ≡ false
      → is_greater (compare_split number b c) ≡ false
      → is_greater (compare_split number a c) ≡ false
  split_trans a b c f g =
      let m = length a + length b + length c in
      rw (split_more m a c (omega arith) (omega arith)) (
        compare_trans m a b c (rw (split_more m a b (omega arith) (omega arith)) at f)
          (rw (split_more m b c (omega arith) (omega arith)) at g))

  split_total :
      (a b : List String)
      → is_greater (compare_split number a b) ≡ true
      → is_greater (compare_split number b a) ≡ false
  split_total a b f =
      let m = length a + length b in
      rw (split_more m b a (omega arith) (omega arith))
        (compare_total m a b (rw (split_more m a b (omega arith) (omega arith)) at f))

  split_refl : (a : List String) → is_greater (compare_split number a a) ≡ false
  split_refl a = elim (Bool-cases (is_greater (compare_split number a a))) [
    | inl f ↦ split_total a a f
    | inr f ↦ f
  ]

  compare_filled :
      (a b : String)
      → b ≢ ""
      → is_greater (compare_dot_versions number a b)
        ≡ is_greater (compare_split number (split b'.' a) (split b'.' b))
  unfolding compare_dot_versions
  compare_filled a b h = elim (Bool-cases (a == b)) [
    | inl same ↦ rw (same, (eq_iff a b).0 same) (sym (split_refl (split b'.' b)))
    | inr other ↦ ground (arith, other, h, eq_iff b "")
  ]

  below_trans :
      (a b c : String)
      → b ≢ ""
      → c ≢ ""
      → is_greater (compare_dot_versions number a b) ≡ false
      → is_greater (compare_dot_versions number b c) ≡ false
      → is_greater (compare_dot_versions number a c) ≡ false
  below_trans a b c hb hc f g = rw (compare_filled a c hc) (
      split_trans (split b'.' a) (split b'.' b) (split b'.' c) (rw (compare_filled a b hb) at f)
        (rw (compare_filled b c hc) at g))

  below_total :
      (a b : String)
      → a ≢ ""
      → b ≢ ""
      → is_greater (compare_dot_versions number a b) ≡ true
      → is_greater (compare_dot_versions number b a) ≡ false
  below_total a b ha hb f =
      rw (compare_filled b a ha)
        (split_total (split b'.' a) (split b'.' b) (rw (compare_filled a b hb) at f))

  below_refl : (a : String) → is_greater (compare_dot_versions number a a) ≡ false
  unfolding compare_dot_versions
  below_refl a = ground (arith, eq_refl a)

  above_empty : (a : String) → a ≢ "" → is_greater (compare_dot_versions number a "") ≡ true
  unfolding compare_dot_versions
  above_empty a h = ground (arith, eq_iff a "")

  module _ (matching : String → Option String) where
    -- The pattern never gives the empty text.
    abbrev pub GivesVersions : Type 0
    GivesVersions = (t m : String) → matching t ≡ some m → m ≢ ""

    -- What `better` chooses is at least what it chooses from.
    better_above :
        (m best : String)
        → m ≢ ""
        → (better number matching (some m) best ≢ "")
          × (is_greater (compare_dot_versions number m (better number matching (some m) best))
              ≡ false)
          × (best ≢ ""
              → is_greater (compare_dot_versions number best (better number matching (some m) best))
                ≡ false)
    better_above m best h = elim (Bool-cases (is_greater (compare_dot_versions number m best))) [
      | inl more ↦ rw more (h, below_refl m, λ filled. below_total m best h filled more)
      | inr less ↦ rw less (
        (λ empty. absurd (
            cc (
              less,
              above_empty m h,
              ap (λ b. is_greater (compare_dot_versions number m b)) empty,
            ))),
        less,
        (λ filled. below_refl best),
      )
    ]

    highest_from_above :
        GivesVersions
        → (best : String) (tags : List String) → best ≢ ""
        → (highest_from number matching best tags ≢ "")
          × (is_greater (compare_dot_versions number best (highest_from number matching best tags))
              ≡ false)
    unfolding highest_from
    highest_from_above gives best [] filled = (filled, below_refl best)
    highest_from_above gives best (t ∷ ts) filled = elim (Option-cases (matching (trim_space t))) [
      | inl other ↦ rw other (highest_from_above gives best ts filled)
      | inr (m, found) ↦
          let (more, _, above) = better_above m best (gives (trim_space t) m found) in
          let b = better number matching (some m) best in
          let (end_filled, end_above) = highest_from_above gives b ts more in
          rw found (end_filled, below_trans best b _ more end_filled (above filled) end_above)
    ]

    abbrev pub AtMost : String → String → Type 0
    AtMost h t =
        (m : String)
        → matching (trim_space t) ≡ some m
        → is_greater (compare_dot_versions number m h) ≡ false

    highest_from-AtMost :
        GivesVersions
        → (best : String) (tags : List String)
        → All (AtMost (highest_from number matching best tags)) tags
    unfolding highest_from
    highest_from-AtMost gives best [] = tt
    highest_from-AtMost gives best (t ∷ ts) = (
      (λ m found.
          let (more, at_least, _) = better_above m best (gives (trim_space t) m found) in
          let b = better number matching (some m) best in
          let (end_filled, end_above) = highest_from_above gives b ts more in
          rw found (below_trans m b _ more end_filled at_least end_above)),
      highest_from-AtMost gives (better number matching (matching (trim_space t)) best) ts,
    )

    abbrev pub Gives : String → List String → Type 0
    Gives h tags = (t : String) × (listed t tags ≡ true) × (matching (trim_space t) ≡ some h)

    kept_Gives :
        (t : String) (ts : List String) (best : String)
        → (highest_from number matching best ts ≡ best)
          ⊎ Gives (highest_from number matching best ts) ts
        → (highest_from number matching best ts ≡ best)
          ⊎ Gives (highest_from number matching best ts) (t ∷ ts)
    kept_Gives t ts best (inl same) = inl same
    kept_Gives t ts best (inr (x, later, gives)) = inr (x, ground (arith, later), gives)

    highest_from-Gives :
        (best : String) (tags : List String)
        → (highest_from number matching best tags ≡ best)
          ⊎ Gives (highest_from number matching best tags) tags
    unfolding highest_from
    highest_from-Gives best [] = inl refl
    highest_from-Gives best (t ∷ ts) = elim (Option-cases (matching (trim_space t))) [
      | inl other ↦ rw other (kept_Gives t ts best (highest_from-Gives best ts))
      | inr (m, found) ↦ elim (Bool-cases (is_greater (compare_dot_versions number m best))) [
        | inr less ↦ rw (found, less) (kept_Gives t ts best (highest_from-Gives best ts))
        | inl more ↦
            rw (found, more)
              (elim (highest_from-Gives m ts) [
                | inl same ↦ inr (t, ground (arith, eq_refl t), found ∙ ap some (sym same))
                | inr (x, later, gives) ↦ inr (x, ground (arith, later), gives)
              ])
      ]
    ]

    -- No tag has a higher version than the one that highestVersionFromTagNames gives, which is the
    -- version of one of the tags or, where no tag has one, empty; this if the pattern never gives
    -- the empty text.
    pub highest_version_greatest :
        (tags : List String)
        → GivesVersions
        → All (AtMost (highest_version_from_tag_names number matching tags)) tags
          × ((highest_version_from_tag_names number matching tags ≡ "")
              ⊎ Gives (highest_version_from_tag_names number matching tags) tags)
    unfolding highest_version_from_tag_names
    highest_version_greatest tags gives =
        (highest_from-AtMost gives "" tags, highest_from-Gives "" tags)

-- For an hour after a request that asked the repository, every request gets the same answer and
-- leaves the cache as it is, whatever the repository would say, also if it could not be asked.
pub versions_handler_stable :
    (now later : ℕ) (role : String) (first_fetch next_fetch : Option (String × String))
    (v : VersionCache)
    → is_fresh now v.checked ≡ false
    → now ≤ later
    → later < now + 3600
    → versions_handler later role next_fetch (versions_handler now role first_fetch v).1
      ≡ versions_handler now role first_fetch v
unfolding versions_handler
versions_handler_stable now later role none next_fetch v stale from to =
    let small : ltb (later - now) 3600 ≡ true = ground arith in rw stale (rw small refl)
versions_handler_stable now later role (some (kernel, alpine)) next_fetch v stale from to =
    let small : ltb (later - now) 3600 ≡ true = ground arith in rw stale (rw small refl)

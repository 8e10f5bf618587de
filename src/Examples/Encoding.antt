-- ===== src/Examples/Encoding.antt =====
-- A stand-in for base64.RawURLEncoding: each byte in unary.
use Prim.Native.Nat.{zero, suc}
use Prim.Native.String.{String, [], ◌∷◌}
use mathlib.Core.Option
use unyport.Common.{
  ℕ, ◌+◌, code, ◌≡◌, ◌≢◌, refl, ap, arith, Bool, true, not, ◌&&◌, Option, none, some, List, nat_eq,
  leb, if◌then◌else◌,
}
use unyport.Common.Text.{all_codes, first_code}
use unyport.Common.Text.Laws.{trim_space-plain}
use unyport.Middleware.Csrf.{RawUrlBase64}

unfoldable pub unary : ℕ → String → String
unary zero rest = "b" ∷ rest
unary (suc n) rest = "a" ∷ unary n rest

unfoldable pub encode : List ℕ → String
unfolding unary
encode List.[] = []
encode (List.◌∷◌ n ns) = unary n (encode ns)

unfoldable pub decode_from : ℕ → String → Option (List ℕ)
decode_from n [] = if nat_eq n 0 then some List.[] else none
decode_from n (c ∷ s) =
    let more = decode_from (n + 1) s in
    let rest = decode_from 0 s in
    if nat_eq (code c) b'a'
    then more
    else if nat_eq (code c) b'b'
    then Option.map (λ ns. List.◌∷◌ n ns) rest
    else none

decode_from-unary :
    (k n : ℕ) (rest : String)
    → decode_from k (unary n rest) ≡ Option.map (λ ns. List.◌∷◌ (k + n) ns) (decode_from 0 rest)
unfolding unary decode_from
decode_from-unary k zero rest = ground arith
decode_from-unary k (suc n) rest = ground (arith, decode_from-unary (k + 1) n rest)

pub decode_from-encode : (ns : List ℕ) → decode_from 0 (encode ns) ≡ some ns
unfolding encode decode_from
decode_from-encode List.[] = refl
decode_from-encode (List.◌∷◌ n ns) =
    rw (decode_from-unary 0 n (encode ns), decode_from-encode ns) (ground arith)

abbrev pub is_plain : ℕ → Bool
is_plain c = leb 33 c && leb c 126 && not (nat_eq c b'.')

unary-plain :
    (n : ℕ) (rest : String)
    → all_codes is_plain rest ≡ true
    → all_codes is_plain (unary n rest) ≡ true
unfolding unary all_codes
unary-plain zero rest h = ground (arith, h)
unary-plain (suc n) rest h = ground (arith, unary-plain n rest h)

pub encode-plain : (ns : List ℕ) → all_codes is_plain (encode ns) ≡ true
unfolding encode all_codes
encode-plain List.[] = refl
encode-plain (List.◌∷◌ n ns) = unary-plain n (encode ns) (encode-plain ns)

pub plain-no_dot :
    (s : String) → all_codes is_plain s ≡ true → all_codes (λ c. not (nat_eq c b'.')) s ≡ true
unfolding all_codes
plain-no_dot [] h = refl
plain-no_dot (c ∷ s) h = ground (arith, plain-no_dot s)

pub plain-visible :
    (s : String) → all_codes is_plain s ≡ true → all_codes (λ c. leb 33 c && leb c 126) s ≡ true
unfolding all_codes
plain-visible [] h = refl
plain-visible (c ∷ s) h = ground (arith, plain-visible s)

unary_nonempty : (n : ℕ) (rest : String) → unary n rest ≢ ""
unfolding unary
unary_nonempty zero rest h = omega (arith, ap first_code h)
unary_nonempty (suc n) rest h = omega (arith, ap first_code h)

pub encode_empty : (ns : List ℕ) → encode ns ≡ "" → ns ≡ List.[]
unfolding encode
encode_empty List.[] h = refl
encode_empty (List.◌∷◌ n ns) h = absurd (unary_nonempty n (encode ns) h)

abbrev pub unary_base64 : RawUrlBase64
unary_base64 = record {
  encode = encode;
  decode = λ s. decode_from 0 s;
  decode-encode = decode_from-encode;
  encode_no_dot = λ ns. plain-no_dot (encode ns) (encode-plain ns);
  trim_space-encode =
      λ ns. trim_space-plain (encode ns) (plain-visible (encode ns) (encode-plain ns));
  encode_empty = encode_empty;
}

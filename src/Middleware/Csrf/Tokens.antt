-- ===== src/Middleware/Csrf/Tokens.antt =====
-- The token of a fresh cookie is the one that is read back from it.
use unyport.Common.{
  ℕ, ◌≡◌, refl, ap, ◌∙◌, String, code, Char, true, false, not, some, List, ◌==◌, eq_iff, arith,
  nat_eq, nat_eq_refl, length, Bool-cases, Option-cases, inl, inr,
}
use Prim.Native.String.{◌++◌, [], ◌∷◌}
use text.Mathlib.TextLemmas.{nil-append, cons-append}
use unyport.Common.Text.{cut, all_codes}
use unyport.Middleware.Csrf.{
  RawUrlBase64, HmacSha256, CsrfManager, sign, same_bytes, parse_cookie, new_token, check_parts,
}

-- strings.Cut finds the separator that was put between two texts, if the first has none.
cut-append :
    (sep : Char) (a b : String)
    → all_codes (λ c. not (nat_eq c (code sep))) a ≡ true
    → cut (code sep) (a ++ (sep ∷ b)) ≡ some (a, b)
unfolding cut all_codes
cut-append sep [] b h = rw nil-append (rw (nat_eq_refl (code sep)) refl)
cut-append sep (c ∷ a) b h =
    let e : (c ∷ a) ++ (sep ∷ b) ≡ c ∷ (a ++ (sep ∷ b)) = cons-append c a (sep ∷ b) in
    rw e (ground (arith, cut-append sep a b))

same_bytes_refl : (xs : List ℕ) → same_bytes xs xs ≡ true
unfolding same_bytes
same_bytes_refl List.[] = refl
same_bytes_refl (List.◌∷◌ x xs) = rw (nat_eq_refl x) (same_bytes_refl xs)

pub same_bytes_sound : (xs ys : List ℕ) → same_bytes xs ys ≡ true → xs ≡ ys
unfolding same_bytes
same_bytes_sound List.[] List.[] h = refl
same_bytes_sound List.[] (List.◌∷◌ y ys) h = cc
same_bytes_sound (List.◌∷◌ x xs) List.[] h = cc
same_bytes_sound (List.◌∷◌ x xs) (List.◌∷◌ y ys) h = ground (arith, same_bytes_sound xs ys)

dot-append : (b : String) → "." ++ b ≡ "." ∷ b
dot-append b = cons-append "." [] b ∙ ap (λ r. "." ∷ r) (nil-append b)

module _ (b64 : RawUrlBase64) (h : HmacSha256) (m : CsrfManager) where
  encode_nonempty : (bytes : List ℕ) → length bytes ≡ 32 → (b64.encode bytes == "") ≡ false
  encode_nonempty bytes len = elim (Bool-cases (b64.encode bytes == "")) [
    | inl none_left ↦
        let e : bytes ≡ List.[] =
          b64.encode_empty bytes ((eq_iff (b64.encode bytes) "").0 none_left) in
        absurd (omega (arith, ap length e, len))
    | inr some_left ↦ some_left
  ]

  parse_cookie_parts :
      (bytes : List ℕ)
      → length bytes ≡ 32
      → check_parts b64 h m (some (b64.encode bytes, b64.encode (sign b64 h m (b64.encode bytes))))
        ≡ some (b64.encode bytes)
  unfolding sign
  parse_cookie_parts bytes len =
      let token = b64.encode bytes in
      let sig = h.mac m.secret token in
      ground (
        arith,
        encode_nonempty bytes len,
        encode_nonempty sig (h.length-mac m.secret token),
        b64.decode-encode bytes,
        b64.decode-encode sig,
        same_bytes_refl sig,
      )

  cut_token :
      (bytes : List ℕ) (sig : String)
      → cut b'.' (b64.encode bytes ++ ("." ++ sig)) ≡ some (b64.encode bytes, sig)
  cut_token bytes sig =
      rw (dot-append sig) (cut-append "." (b64.encode bytes) sig (b64.encode_no_dot bytes))

  -- The value of a cookie that newToken has made from 32 random bytes is read back as its token.
  pub parse_cookie-new_token :
      (bytes : List ℕ) (token value : String)
      → length bytes ≡ 32
      → new_token b64 h m (some bytes) ≡ some (token, value)
      → (parse_cookie b64 h m value ≡ some token) × (token ≡ b64.encode bytes)
  unfolding parse_cookie new_token
  parse_cookie-new_token bytes token value len made =
      let same : token ≡ b64.encode bytes = ground arith in
      let built : value
          ≡ b64.encode bytes ++ ("." ++ b64.encode (h.mac m.secret (b64.encode bytes))) =
        ground arith in
      (rw (built, same, cut_token bytes _) (parse_cookie_parts bytes len), same)

  -- A cookie is accepted only if it is a token, a dot and a signature, the token decodes to 32
  -- bytes, and the signature decodes to the token's HMAC.
  pub parse_cookie_sound :
      (value token : String)
      → parse_cookie b64 h m value ≡ some token
      → (raw_sig : String) × (bytes : List ℕ) × (cut b'.' value ≡ some (token, raw_sig))
        × (b64.decode token ≡ some bytes)
        × (length bytes ≡ 32)
        × (b64.decode raw_sig ≡ some (sign b64 h m token))
  unfolding parse_cookie
  parse_cookie_sound value token e = elim (Option-cases (cut b'.' value)) [
    | inl whole ↦ absurd (ground (arith, whole))
    | inr ((front, raw_sig), split) ↦ elim (Option-cases (b64.decode front)) [
      | inl bad ↦ absurd (ground (arith, split, bad))
      | inr (bytes, fine) ↦ elim (Option-cases (b64.decode raw_sig)) [
        | inl bad ↦ absurd (ground (arith, split, fine, bad))
        | inr (sig, known) ↦
            let same : sig ≡ sign b64 h m front =
              same_bytes_sound sig (sign b64 h m front) (ground (arith, split, fine, known)) in
            let front_token : front ≡ token = ground (arith, split, fine, known) in
            (
              raw_sig,
              bytes,
              rw (← front_token) split,
              rw (← front_token) fine,
              ground (arith, split, fine, known),
              rw (← front_token) (known ∙ ap some same),
            )
      ]
    ]
  ]

-- ===== src/Logs/Tail.antt =====
-- The lines that tailLogFile gives are the last lines of the file.
use mathlib.Core.List.{append_assoc}
use unyport.Common.{
  ℕ, zero, suc, ◌-◌, ◌≤◌, ◌≡◌, ◌≢◌, refl, ap, sym, ◌∙◌, inl, inr, ◌⊎◌, Bool, true, false, some,
  List, [], ◌∷◌, ◌++◌, map, arith, length, length-append, nat_eq, Bool-cases, if◌then◌else◌,
}
use unyport.Logs.{
  newline, trim_right_newlines, split_lines, after_newline, drop, max_tail_bytes, window,
  last_lines, push_front, keep_but_newline, Files, clean_line, tail_of,
}

module _ {ℓ} {A : Type ℓ} where
  -- What drop leaves out, and how long it is.
  drop-append :
      (n : ℕ) (xs : List A)
      → n ≤ length xs
      → (before : List A) × (xs ≡ before ++ drop n xs) × (length before ≡ n)
  unfolding drop
  drop-append zero xs h = ([], refl, refl)
  drop-append (suc n) [] h = absurd (omega (arith, h))
  drop-append (suc n) (x ∷ xs) h =
      let (before, whole, long) = drop-append n xs (omega (arith, h)) in
      (x ∷ before, ap (λ l. x ∷ l) whole, ap suc long)

  last_lines-append :
      (n : ℕ) (xs : List A)
      → (before : List A) × (xs ≡ before ++ last_lines n xs) × (length (last_lines n xs) ≤ n)
  unfolding last_lines
  last_lines-append n xs =
      let (before, whole, long) = drop-append (length xs - n) xs (omega arith) in
      (
        before,
        whole,
        omega (arith, long, ap length whole, length-append before (drop (length xs - n) xs)),
      )

after_newline-append :
    (s rest : List ℕ)
    → after_newline s ≡ some rest
    → (before : List ℕ) × (s ≡ before ++ (newline ∷ rest))
unfolding after_newline
after_newline-append [] rest h = absurd (ground (arith, h))
after_newline-append (c ∷ s) rest h = elim (Bool-cases (nat_eq c newline)) [
  | inl here ↦ ([], ground (arith, here, h))
  | inr other ↦
      let (before, whole) = after_newline-append s rest (ground (arith, other, h)) in
      (c ∷ before, ap (λ l. c ∷ l) whole)
]

split_lines-filled : (s : List ℕ) → split_lines s ≢ []
unfolding split_lines
split_lines-filled [] e = absurd (ground (arith, e))
split_lines-filled (c ∷ s) e = by_rest (split_lines s) (nat_eq c newline) e
  where
    by_rest : (ls : List (List ℕ)) (b : Bool) → (if b then [] ∷ ls else push_front c ls) ≢ []
    by_rest ls true f = absurd (ground (arith, f))
    by_rest [] false f = absurd (ground (arith, f))
    by_rest (l ∷ ls) false f = absurd (ground (arith, f))

split_lines-append :
    (s rest : List ℕ) → split_lines (s ++ (newline ∷ rest)) ≡ split_lines s ++ split_lines rest
unfolding split_lines
split_lines-append [] rest = refl
split_lines-append (c ∷ s) rest =
    rw (split_lines-append s rest)
      (by_test (split_lines s) (nat_eq c newline) (split_lines-filled s))
  where
    by_test :
        (ls : List (List ℕ)) (b : Bool)
        → ls ≢ []
        → (if b then [] ∷ (ls ++ split_lines rest) else push_front c (ls ++ split_lines rest))
          ≡ (if b then [] ∷ ls else push_front c ls) ++ split_lines rest
    by_test ls true f = refl
    by_test [] false f = absurd (f refl)
    by_test (l ∷ ls) false f = refl

trim_right_newlines-append :
    (s rest : List ℕ)
    → trim_right_newlines rest ≢ []
    → trim_right_newlines (s ++ rest) ≡ s ++ trim_right_newlines rest
unfolding trim_right_newlines
trim_right_newlines-append [] rest h = refl
trim_right_newlines-append (c ∷ s) rest h =
    rw (trim_right_newlines-append s rest h) (by_rest s (trim_right_newlines rest) h)
  where
    by_rest : (a b : List ℕ) → b ≢ [] → keep_but_newline c (a ++ b) ≡ c ∷ (a ++ b)
    by_rest [] [] f = absurd (f refl)
    by_rest [] (d ∷ b) f = refl
    by_rest (d ∷ a) b f = refl

-- The bytes that are read hold a complete line of the file: they are the whole file, or behind a
-- line break in them there is more than line breaks.
abbrev pub HoldsLine : ℕ → List ℕ → Type 0
HoldsLine limit file =
    (length file ≤ limit)
    ⊎ ((rest : List ℕ) × (after_newline (drop (length file - limit) file) ≡ some rest)
        × (trim_right_newlines rest ≢ []))

lines_behind :
    (s rest : List ℕ)
    → trim_right_newlines rest ≢ []
    → split_lines (trim_right_newlines (s ++ (newline ∷ rest)))
      ≡ split_lines s ++ split_lines (trim_right_newlines rest)
lines_behind s rest more =
    let one : trim_right_newlines (newline ∷ rest) ≡ newline ∷ trim_right_newlines rest =
      trim_right_newlines-append (newline ∷ []) rest more in
    let filled : trim_right_newlines (newline ∷ rest) ≢ [] = λ e. absurd (cc (e, one)) in
    rw (trim_right_newlines-append s (newline ∷ rest) filled, one)
      (split_lines-append s (trim_right_newlines rest))

window_whole : (limit : ℕ) (file : List ℕ) → length file - limit ≡ 0 → window limit file ≡ file
unfolding window drop
window_whole limit file e = rw e refl

window-lines :
    (limit : ℕ) (file : List ℕ)
    → HoldsLine limit file
    → (before : List (List ℕ)) × (split_lines (trim_right_newlines file)
        ≡ before ++ split_lines (trim_right_newlines (window limit file)))
unfolding window
window-lines limit file (inl small) = ([], rw (window_whole limit file (omega (arith, small))) refl)
window-lines limit file (inr (rest, found, more)) =
    elim (Bool-cases (nat_eq (length file - limit) 0)) [
      | inl whole ↦ ([], rw (window_whole limit file (ground (arith, whole))) refl)
      | inr long ↦
          let (p, all_bytes, _) = drop-append (length file - limit) file (omega arith) in
          let (q, read_bytes) = after_newline-append _ rest found in
          let same : file ≡ (p ++ q) ++ (newline ∷ rest) =
            all_bytes ∙ ap (λ l. p ++ l) read_bytes ∙ sym (append_assoc p q (newline ∷ rest)) in
          (
            split_lines (p ++ q),
            rw (long, found)
                (ap (λ l. split_lines (trim_right_newlines l)) same
                  ∙ lines_behind (p ++ q) rest more),
          )
    ]

length-last_lines :
    {A : Type 0} (n : ℕ) (xs : List A) → n ≤ length xs → length (last_lines n xs) ≡ n
unfolding last_lines
length-last_lines n xs h =
    let (before, whole, long) = drop-append (length xs - n) xs (omega arith) in
    omega (arith, h, long, ap length whole, length-append before (drop (length xs - n) xs))

exact :
    (n : ℕ) (file : List ℕ)
    → length file ≤ max_tail_bytes
    → length (split_lines (trim_right_newlines (window max_tail_bytes file)))
      ≡ length (split_lines (trim_right_newlines file))
    → n ≤ length (split_lines (trim_right_newlines file))
    → length (last_lines n (split_lines (trim_right_newlines (window max_tail_bytes file)))) ≡ n
exact n file small e many = length-last_lines n _ (omega (arith, e, many))

-- The lines that tailLogFile shows of a file, where the last 1 MiB of the file holds a complete
-- line, are cleaned lines of the file: its last ones, without a part of a line, and no more than
-- asked for. Of a file of at most 1 MiB they are as many as asked for, if it has them.
pub tail_of-IsTail :
    (f : Files) (n : ℕ) (file : List ℕ)
    → HoldsLine max_tail_bytes file
    → (before last : List (List ℕ)) × (split_lines (trim_right_newlines file) ≡ before ++ last)
      × (length last ≤ n)
      × (length file ≤ max_tail_bytes → n ≤ length (before ++ last) → length last ≡ n)
      × (tail_of f n file ≡ map (clean_line f) last)
tail_of-IsTail f n file h =
    let (a, whole) = window-lines max_tail_bytes file h in
    let kept = split_lines (trim_right_newlines (window max_tail_bytes file)) in
    let (b, parts, few) = last_lines-append n kept in
    (
      a ++ b,
      last_lines n kept,
      whole ∙ ap (λ l. a ++ l) parts ∙ sym (append_assoc a b (last_lines n kept)),
      few,
      (λ small many.
          exact n file small
            (ap length (
              ap split_lines
                (ap trim_right_newlines (window_whole max_tail_bytes file (omega (arith, small))))))
            (omega (
              arith,
              many,
              ap length
                  (whole ∙ ap (λ l. a ++ l) parts ∙ sym (append_assoc a b (last_lines n kept))),
            ))),
      refl,
    )

-- ===== src/Broker/Reboots/Laws.antt =====
-- Each boot is counted once, and the reply of RebootsHandler is consistent.
use unyport.Common.{
  ℕ, ◌≡◌, ◌≢◌, refl, ap, ◌∙◌, inl, inr, ◌⊎◌, String, Bool, true, false, not, ◌&&◌, ◌||◌, Option,
  none, some, List, [], ◌∷◌, ◌++◌, ◌==◌, eq_iff, eq_refl, arith, Bool-cases, if◌then◌else◌, All,
}
use unyport.Common.Text.{trim_space}
use unyport.Common.Dict.{listed}
use unyport.Broker.Reboots.{
  StartupHistoryRecord, History, count_record, count_decoded, count_lines,
  parse_startup_history_by_day,
}

-- The record has the identity of a boot or its time.
abbrev pub IsIdentified : Option StartupHistoryRecord → Type 0
IsIdentified none = Unit
IsIdentified (some r) = (r.boot_id ≢ "") ⊎ (r.rebooted_at ≢ "")

module _ (day_of : String → Option (ℕ × String)) (year : ℕ) where
  abbrev seen : StartupHistoryRecord → History → Bool
  seen r h =
      (not (r.event == "startup") || (r.timestamp == "" && r.rebooted_at == ""))
      || (if not (r.boot_id == "")
          then listed r.boot_id h.boot_ids
          else listed r.rebooted_at h.reboot_times)

  abbrev Seen : Option StartupHistoryRecord → History → Type 0
  Seen none h = Unit
  Seen (some r) h = seen r h ≡ true

  seen_ignored :
      (r : StartupHistoryRecord) (h : History)
      → (r.boot_id ≢ "") ⊎ (r.rebooted_at ≢ "")
      → seen r h ≡ true
      → count_record day_of year r h ≡ h
  unfolding count_record
  seen_ignored r h identified e =
      ground (arith, e, identified, eq_iff r.boot_id "", eq_iff r.rebooted_at "")

  seen_after :
      (r : StartupHistoryRecord) (h : History)
      → (r.boot_id ≢ "") ⊎ (r.rebooted_at ≢ "")
      → seen r (count_record day_of year r h) ≡ true
  unfolding count_record
  seen_after r h identified = ground (
    arith,
    identified,
    eq_iff r.boot_id "",
    eq_iff r.rebooted_at "",
    eq_refl r.boot_id,
    eq_refl r.rebooted_at,
  )

  seen_still :
      (r x : StartupHistoryRecord) (h : History)
      → seen r h ≡ true
      → seen r (count_record day_of year x h) ≡ true
  unfolding count_record
  seen_still r x h e = ground (arith, e)

  module _ (decode : String → Option StartupHistoryRecord) where
    -- The line is blank, or what it decodes to is seen.
    abbrev LineSeen : History → String → Type 0
    LineSeen h l = (trim_space l == "") ≡ false → Seen (decode (trim_space l)) h

    abbrev LineIdentified : String → Type 0
    LineIdentified l = IsIdentified (decode (trim_space l))

    abbrev step : String → History → History
    step l h = if trim_space l == "" then h else count_decoded day_of year (decode (trim_space l)) h

    Seen-step :
        (o : Option StartupHistoryRecord) (l : String) (h : History) → Seen o h → Seen o (step l h)
    Seen-step none l h s = tt
    Seen-step (some r) l h s = elim (Bool-cases (trim_space l == "")) [
      | inl blank ↦ rw blank s
      | inr line ↦ rw line (by_decoded (decode (trim_space l)))
    ]
      where
        by_decoded :
            (o : Option StartupHistoryRecord) → Seen (some r) (count_decoded day_of year o h)
        by_decoded none = s
        by_decoded (some x) = seen_still r x h s

    Seen-count_lines :
        (o : Option StartupHistoryRecord) (ls : List String) (h : History)
        → Seen o h
        → Seen o (count_lines day_of year decode ls h)
    unfolding count_lines
    Seen-count_lines o [] h s = s
    Seen-count_lines o (l ∷ ls) h s = Seen-count_lines o ls (step l h) (Seen-step o l h s)

    count_decoded-Seen :
        (o : Option StartupHistoryRecord) (h : History)
        → IsIdentified o
        → Seen o (count_decoded day_of year o h)
    count_decoded-Seen none h i = tt
    count_decoded-Seen (some r) h i = seen_after r h i

    count_lines-LineSeen :
        (ls : List String) (h : History)
        → All LineIdentified ls
        → All (LineSeen (count_lines day_of year decode ls h)) ls
    unfolding count_lines
    count_lines-LineSeen [] h i = tt
    count_lines-LineSeen (l ∷ ls) h (here, i) = (
      (λ line.
          Seen-count_lines (decode (trim_space l)) ls (step l h)
            (rw line (count_decoded-Seen (decode (trim_space l)) h here))),
      count_lines-LineSeen ls (step l h) i,
    )

    step_seen : (l : String) (h : History) → LineIdentified l → LineSeen h l → step l h ≡ h
    step_seen l h i s = elim (Bool-cases (trim_space l == "")) [
      | inl blank ↦ rw blank refl
      | inr line ↦ rw line (by_decoded (decode (trim_space l)) i (s line))
    ]
      where
        by_decoded :
            (o : Option StartupHistoryRecord)
            → IsIdentified o
            → Seen o h
            → count_decoded day_of year o h ≡ h
        by_decoded none _ _ = refl
        by_decoded (some r) identified e = seen_ignored r h identified e

    lines_seen :
        (ls : List String) (h : History)
        → All LineIdentified ls
        → All (LineSeen h) ls
        → count_lines day_of year decode ls h ≡ h
    unfolding count_lines
    lines_seen [] h i s = refl
    lines_seen (l ∷ ls) h (i_here, i) (s_here, s) =
        ap (count_lines day_of year decode ls) (step_seen l h i_here s_here) ∙ lines_seen ls h i s

    count_lines-append :
        (xs ys : List String) (h : History)
        → count_lines day_of year decode (xs ++ ys) h
          ≡ count_lines day_of year decode ys (count_lines day_of year decode xs h)
    unfolding count_lines
    count_lines-append [] ys h = refl
    count_lines-append (x ∷ xs) ys h = count_lines-append xs ys (step x h)

    -- A history that repeats itself gives the same counts as once: no boot is counted twice, if
    -- every record has the identity of its boot or the time of the reboot.
    pub parse_startup_history_by_day-twice :
        (ls : List String)
        → All LineIdentified ls
        → parse_startup_history_by_day day_of year decode (ls ++ ls)
          ≡ parse_startup_history_by_day day_of year decode ls
    unfolding parse_startup_history_by_day
    parse_startup_history_by_day-twice ls i =
        let start : History = record { counts = []; boot_ids = []; reboot_times = [] } in
        ap (λ h. h.counts)
          (count_lines-append ls ls start
            ∙ lines_seen ls (count_lines day_of year decode ls start) i
                (count_lines-LineSeen ls start i))

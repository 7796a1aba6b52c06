-- ===== src/Text/Split/Trim.antt =====
-- src/core/text_utils.c: what TEXT_UTILS_TrimBuffer cuts off.
use usp_agent_stomp.Common.{
  ℕ, ◌+◌, ◌-◌, ◌<◌, ◌≡◌, refl, sym, ap, ap₂, ◌∙◌, inl, inr, true, false, none, some, [], ◌∷◌, ◌++◌,
  append_assoc, append-nil, arith, Bool-cases, length, take, length-append, take-append,
  drop-append, All, Bytes,
}
use usp_agent_stomp.Text.Split.{is_space, trim_scan, cut_out, trim_buffer}

abbrev pub IsSpaces : Bytes → Type 0
IsSpaces = All (λ c. is_space c ≡ true)

-- The scan where no character but spaces has been seen, and where one has.
scan_spaces :
    (l rest : Bytes) (i last : ℕ)
    → IsSpaces l
    → trim_scan (l ++ rest) i none last ≡ trim_scan rest (i + length l) none last
unfolding trim_scan
scan_spaces [] rest i last h = ap (λ n. trim_scan rest n none last) (omega arith)
scan_spaces (c ∷ l) rest i last (hc, hs) =
    rw hc
      (rw (scan_spaces l rest (i + 1) last hs) (ap (λ n. trim_scan rest n none last) (omega arith)))

scan_tail :
    (r : Bytes) (i first last : ℕ)
    → IsSpaces r
    → trim_scan r i (some first) last ≡ (some first, last)
unfolding trim_scan
scan_tail [] i first last h = refl
scan_tail (c ∷ r) i first last (hc, hs) = rw hc (scan_tail r (i + 1) first last hs)

-- A text, then a character that is no space: it is the last one so far.
scan_last :
    (m : Bytes) (d : ℕ) (r : Bytes) (i first last : ℕ)
    → is_space d ≡ false
    → IsSpaces r
    → trim_scan (m ++ d ∷ r) i (some first) last ≡ (some first, i + length m)
unfolding trim_scan
scan_last [] d r i first last hd h =
    rw hd (scan_tail r (i + 1) first i h ∙ ap (λ (n : ℕ). (some first, n)) (omega arith))
scan_last (c ∷ m) d r i first last hd h = elim (Bool-cases (is_space c)) [
  | inl e ↦
      rw e (scan_last m d r (i + 1) first last hd h ∙ ap (λ (n : ℕ). (some first, n)) (omega arith))
  | inr e ↦
      rw e (scan_last m d r (i + 1) first i hd h ∙ ap (λ (n : ℕ). (some first, n)) (omega arith))
]

-- A text that is not empty and has no space at either end.
pub data IsSolid : Bytes → Type 0 where
  one : (c : ℕ) → is_space c ≡ false → IsSolid (c ∷ [])
  more :
      (c : ℕ) (m : Bytes) (d : ℕ)
      → is_space c ≡ false
      → is_space d ≡ false
      → IsSolid (c ∷ (m ++ d ∷ []))

scan_solid :
    (core r : Bytes) (i : ℕ)
    → IsSolid core
    → IsSpaces r
    → trim_scan (core ++ r) i none 0 ≡ (some i, i + (length core - 1))
unfolding trim_scan
scan_solid core r i (one c hc) h =
    rw hc (scan_tail r (i + 1) i i h ∙ ap (λ (n : ℕ). (some i, n)) (omega arith))
scan_solid core r i (more c m d hc hd) h = rw hc (
    rw (append_assoc m (d ∷ []) r) (
      scan_last m d r (i + 1) i i hd h
      ∙ ap (λ (n : ℕ). (some i, n)) (omega (arith, length-append m (d ∷ [])))))

IsSolid-pos : (core : Bytes) → IsSolid core → 0 < length core
IsSolid-pos core (one c hc) = omega arith
IsSolid-pos core (more c m d hc hd) = omega arith

-- A text of spaces only is trimmed to nothing.
pub trim_buffer_spaces : (l : Bytes) → IsSpaces l → trim_buffer l ≡ []
unfolding trim_buffer
trim_buffer_spaces l h =
    let e : trim_scan l 0 none 0 ≡ (none, 0) =
      ap (λ (s : Bytes). trim_scan s 0 none 0) (sym (append-nil l))
      ∙ scan_spaces l [] 0 0 h
      ∙ (unfold trim_scan in refl) in
    ap (cut_out l) e

-- TEXT_UTILS_TrimBuffer returns the part of a text between the spaces and tabs at its two ends,
-- whatever spaces stand inside that part.
pub trim_buffer_lem :
    (l core r : Bytes)
    → IsSpaces l
    → IsSolid core
    → IsSpaces r
    → trim_buffer (l ++ (core ++ r)) ≡ core
unfolding trim_buffer
trim_buffer_lem l core r hl hc hr =
    let scanned : trim_scan (l ++ (core ++ r)) 0 none 0
        ≡ (some (length l), length l + (length core - 1)) =
      scan_spaces l (core ++ r) 0 0 hl
      ∙ ap (λ n. trim_scan (core ++ r) n none 0) (omega arith)
      ∙ scan_solid core r (length l) hc hr in
    let size : length l + (length core - 1) + 1 - length l ≡ length core =
      omega (arith, IsSolid-pos core hc) in
    ap (cut_out (l ++ (core ++ r))) scanned
    ∙ ap₂ take size (drop-append l (core ++ r))
    ∙ take-append core r

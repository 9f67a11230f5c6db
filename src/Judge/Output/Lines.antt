-- ===== src/Judge/Output/Lines.antt =====
-- Trimming and splitting, line by line.
use codeweaknesses.Common.{
  ℕ, ◌≡◌, refl, sym, ap, ◌∙◌, true, List, [], ◌∷◌, ◌++◌, map, arith, eqb, filter, All, Bool-cases,
  inl, inr, if◌then◌else◌,
}
use mathlib.Core.List.{append_assoc, append-nil}
use codeweaknesses.Entities.{Text}
use codeweaknesses.Judge.Output.{
  newline, is_space, trim_start, trim_end, trim, push_head, split_lines, is_filled,
}

abbrev pub AllSpace : Text → Type 0
AllSpace = All (λ c. is_space c ≡ true)

-- The lines of a text that are not blank, each trimmed.
unfoldable pub content : Text → List Text
content s = filter is_filled (map trim (split_lines s))

abbrev content_lines : List Text → List Text
content_lines ls = filter is_filled (map trim ls)

trim_end-snoc : (l : Text) (c : ℕ) → is_space c ≡ true → trim_end (l ++ c ∷ []) ≡ trim_end l
unfolding trim_end
trim_end-snoc [] c h = rw h
trim_end-snoc (d ∷ l) c h = rw (trim_end-snoc l c h)

trim-snoc : (l : Text) (c : ℕ) → is_space c ≡ true → trim (l ++ c ∷ []) ≡ trim l
unfolding trim
trim-snoc l c h = ap trim_start (trim_end-snoc l c h)

trim-cons_space : (c : ℕ) (l : Text) → is_space c ≡ true → trim (c ∷ l) ≡ trim l
unfolding trim trim_start trim_end
trim-cons_space c l h = ground arith

content_lines-push_head :
    (c : ℕ) (ls : List Text) → is_space c ≡ true → content_lines (push_head c ls) ≡ content_lines ls
unfolding trim trim_start trim_end
content_lines-push_head c [] h = rw h
content_lines-push_head c (l ∷ ls) h = rw (trim-cons_space c l h)

-- A space in front changes no line of the content.
content-cons : (c : ℕ) (s : Text) → is_space c ≡ true → content (c ∷ s) ≡ content s
unfolding content split_lines trim trim_start trim_end
content-cons c s h = elim (Bool-cases (eqb c newline)) [
  | inl e ↦ rw e
  | inr e ↦ rw e (content_lines-push_head c (split_lines s) h)
]

-- One more code unit at the end of the last line, or a new line for a newline.
snoc_line : ℕ → List Text → List Text
snoc_line c [] = if eqb c newline then [] ∷ [] ∷ [] else (c ∷ []) ∷ []
snoc_line c (l ∷ []) = if eqb c newline then l ∷ [] ∷ [] else (l ++ c ∷ []) ∷ []
snoc_line c (l ∷ m ∷ ls) = l ∷ snoc_line c (m ∷ ls)

push_head-snoc_line :
    (d c : ℕ) (ls : List Text) → push_head d (snoc_line c ls) ≡ snoc_line c (push_head d ls)
unfolding snoc_line
push_head-snoc_line d c [] = ground arith
push_head-snoc_line d c (l ∷ []) = ground arith
push_head-snoc_line d c (l ∷ m ∷ ls) = refl

split_lines-cons : (s : Text) → (l : Text) × (ls : List Text) × (split_lines s ≡ l ∷ ls)
unfolding split_lines
split_lines-cons [] = ([], [], refl)
split_lines-cons (c ∷ s) =
    let (l, ls, e) = split_lines-cons s in
    elim (Bool-cases (eqb c newline)) [
      | inl n ↦ ([], split_lines s, rw n)
      | inr n ↦ (c ∷ l, ls, rw (n, e))
    ]

split_lines-snoc : (s : Text) (c : ℕ) → split_lines (s ++ c ∷ []) ≡ snoc_line c (split_lines s)
unfolding split_lines snoc_line
split_lines-snoc [] c = ground arith
split_lines-snoc (d ∷ s) c =
    let (l, ls, e) = split_lines-cons s in
    elim (Bool-cases (eqb d newline)) [
      | inl n ↦ rw (n, split_lines-snoc s c, e)
      | inr n ↦ rw (n, split_lines-snoc s c) (push_head-snoc_line d c (split_lines s))
    ]

content_lines-snoc_line :
    (c : ℕ) (ls : List Text) → is_space c ≡ true → content_lines (snoc_line c ls) ≡ content_lines ls
unfolding snoc_line trim trim_start trim_end
content_lines-snoc_line c [] h = elim (Bool-cases (eqb c newline)) [
  | inl n ↦ rw n
  | inr n ↦ rw (n, h)
]
content_lines-snoc_line c (l ∷ []) h = elim (Bool-cases (eqb c newline)) [
  | inl n ↦ rw n
  | inr n ↦ rw (n, trim-snoc l c h)
]
content_lines-snoc_line c (l ∷ m ∷ ls) h = rw (content_lines-snoc_line c (m ∷ ls) h)

content-snoc : (s : Text) (c : ℕ) → is_space c ≡ true → content (s ++ c ∷ []) ≡ content s
unfolding content
content-snoc s c h = rw (split_lines-snoc s c) (content_lines-snoc_line c (split_lines s) h)

pub content-append : (s w : Text) → AllSpace w → content (s ++ w) ≡ content s
content-append s [] h = rw (append-nil s)
content-append s (c ∷ w) h =
    ap content (sym (append_assoc s (c ∷ []) w))
    ∙ content-append (s ++ c ∷ []) w h.1
    ∙ content-snoc s c h.0

pub content-prepend : (w s : Text) → AllSpace w → content (w ++ s) ≡ content s
content-prepend [] s h = refl
content-prepend (c ∷ w) s h = content-cons c (w ++ s) h.0 ∙ content-prepend w s h.1

-- Trimming takes a run of spaces off the end.
trim_end_parts : (s : Text) → (w : Text) × (s ≡ trim_end s ++ w) × AllSpace w
unfolding trim_end
trim_end_parts [] = ([], refl, tt)
trim_end_parts (c ∷ s) = let (w, e, h) = trim_end_parts s in go (trim_end s) w e h
  where
    go :
        (r w : Text)
        → s ≡ r ++ w
        → AllSpace w
        → (v : Text) × (c ∷ s
            ≡ (elim r [ [] ↦ if is_space c then [] else c ∷ [] | d ∷ q ↦ c ∷ d ∷ q ]) ++ v)
          × AllSpace v
    go [] w e h = elim (Bool-cases (is_space c)) [
      | inl q ↦ rw q (c ∷ w, ap (◌∷◌ c) e, (q, h))
      | inr q ↦ rw q (w, ap (◌∷◌ c) e, h)
    ]
    go (d ∷ q) w e h = (w, ap (◌∷◌ c) e, h)

content-trim_start : (s : Text) → content (trim_start s) ≡ content s
unfolding trim_start
content-trim_start [] = refl
content-trim_start (c ∷ s) = elim (Bool-cases (is_space c)) [
  | inl h ↦ rw h (content-trim_start s ∙ sym (content-cons c s h))
  | inr h ↦ rw h
]

pub content-trim : (s : Text) → content (trim s) ≡ content s
unfolding trim
content-trim s =
    let (w, e, h) = trim_end_parts s in
    content-trim_start (trim_end s) ∙ sym (content-append (trim_end s) w h) ∙ ap content (sym e)

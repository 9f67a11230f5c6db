-- ===== src/Judge/Output/Laws.antt =====
-- What `compareOutput` decides, and that normalising is stable.
use codeweaknesses.Common.{
  ℕ, ◌≡◌, refl, sym, ap, ◌∙◌, ◌↔◌, true, false, List, [], ◌∷◌, ◌++◌, map, arith, eqb, filter, All,
  Bool-cases, inl, inr, if◌then◌else◌,
}
use codeweaknesses.Entities.{Text}
use codeweaknesses.Judge.Output.{
  newline, is_space, trim_start, trim_end, trim, push_head, split_lines, join_lines, is_filled,
  normalize_output, text_eq, compare_output,
}
use codeweaknesses.Judge.Output.Lines.{
  AllSpace, content, content-append, content-prepend, content-trim,
}

abbrev IsOneLine : Text → Type 0
IsOneLine = All (λ c. eqb c newline ≡ false)

-- A line as `content` leaves it.
abbrev IsLine : Text → Type 0
IsLine l = (trim l ≡ l) × (is_filled l ≡ true) × IsOneLine l

module _ (P : ℕ → Type 0) where
  All-trim_start : (s : Text) → All P s → All P (trim_start s)
  unfolding trim_start
  All-trim_start [] h = tt
  All-trim_start (c ∷ s) h = elim (Bool-cases (is_space c)) [
    | inl e ↦ rw e (All-trim_start s h.1)
    | inr e ↦ rw e h
  ]

  All-trim_end : (s : Text) → All P s → All P (trim_end s)
  unfolding trim_end
  All-trim_end [] h = tt
  All-trim_end (c ∷ s) h = go (trim_end s) (All-trim_end s h.1)
    where
      go :
          (r : Text)
          → All P r
          → All P (elim r [ [] ↦ if is_space c then [] else c ∷ [] | d ∷ q ↦ c ∷ d ∷ q ])
      go [] k = elim (Bool-cases (is_space c)) [ inl e ↦ rw e tt | inr e ↦ rw e (h.0, tt) ]
      go (d ∷ q) k = (h.0, k)

trim_end-trim_end : (s : Text) → trim_end (trim_end s) ≡ trim_end s
unfolding trim_end
trim_end-trim_end [] = refl
trim_end-trim_end (c ∷ s) = go (trim_end s) (trim_end-trim_end s)
  where
    go :
        (r : Text)
        → trim_end r ≡ r
        → trim_end (elim r [ [] ↦ if is_space c then [] else c ∷ [] | d ∷ q ↦ c ∷ d ∷ q ])
          ≡ (elim r [ [] ↦ if is_space c then [] else c ∷ [] | d ∷ q ↦ c ∷ d ∷ q ])
    go [] k = elim (Bool-cases (is_space c)) [ inl e ↦ rw e | inr e ↦ rw e (rw e) ]
    go (d ∷ q) k = rw k

trim_start-trim_start : (s : Text) → trim_start (trim_start s) ≡ trim_start s
unfolding trim_start
trim_start-trim_start [] = refl
trim_start-trim_start (c ∷ s) = elim (Bool-cases (is_space c)) [
  | inl e ↦ rw e (trim_start-trim_start s)
  | inr e ↦ rw e (rw e)
]

trim_end-tail : (c : ℕ) (s : Text) → trim_end (c ∷ s) ≡ c ∷ s → trim_end s ≡ s
unfolding trim_end
trim_end-tail c s h = go (trim_end s) refl h
  where
    go :
        (r : Text)
        → trim_end s ≡ r
        → (elim r [ [] ↦ if is_space c then [] else c ∷ [] | d ∷ q ↦ c ∷ d ∷ q ]) ≡ c ∷ s
        → trim_end s ≡ s
    go [] e k = ground arith
    go (d ∷ q) e k = cc

trim_end-trim_start : (s : Text) → trim_end s ≡ s → trim_end (trim_start s) ≡ trim_start s
unfolding trim_start
trim_end-trim_start [] h = h
trim_end-trim_start (c ∷ s) h = elim (Bool-cases (is_space c)) [
  | inl e ↦ rw e (trim_end-trim_start s (trim_end-tail c s h))
  | inr e ↦ rw e h
]

trim-trim : (s : Text) → trim (trim s) ≡ trim s
unfolding trim
trim-trim s =
    ap trim_start (trim_end-trim_start (trim_end s) (trim_end-trim_end s))
    ∙ trim_start-trim_start (trim_end s)

split_lines-IsOneLine : (s : Text) → All IsOneLine (split_lines s)
unfolding split_lines
split_lines-IsOneLine [] = (tt, tt)
split_lines-IsOneLine (c ∷ s) = elim (Bool-cases (eqb c newline)) [
  | inl n ↦ rw n (tt, split_lines-IsOneLine s)
  | inr n ↦ rw n (go (split_lines s) n (split_lines-IsOneLine s))
]
  where
    go :
        (ls : List Text) → eqb c newline ≡ false → All IsOneLine ls → All IsOneLine (push_head c ls)
    go [] n h = ((n, tt), tt)
    go (l ∷ ls) n h = ((n, h.0), h.1)

content_lines-IsLine :
    (ls : List Text) → All IsOneLine ls → All IsLine (filter is_filled (map trim ls))
unfolding trim
content_lines-IsLine [] h = tt
content_lines-IsLine (l ∷ ls) h = elim (Bool-cases (is_filled (trim l))) [
  | inl f ↦ rw f (
    (
      trim-trim l,
      f,
      All-trim_start (λ c. eqb c newline ≡ false) (trim_end l)
          (All-trim_end (λ c. eqb c newline ≡ false) l h.0),
    ),
    content_lines-IsLine ls h.1,
  )
  | inr f ↦ rw f (content_lines-IsLine ls h.1)
]

split_lines-append : (l s : Text) → IsOneLine l → split_lines (l ++ newline ∷ s) ≡ l ∷ split_lines s
unfolding split_lines
split_lines-append [] s h = refl
split_lines-append (c ∷ l) s h = rw (h.0, split_lines-append l s h.1)

split_lines_of_IsOneLine : (l : Text) → IsOneLine l → split_lines l ≡ l ∷ []
unfolding split_lines
split_lines_of_IsOneLine [] h = refl
split_lines_of_IsOneLine (c ∷ l) h = rw (h.0, split_lines_of_IsOneLine l h.1)

-- Joined lines have those lines as their content.
content-join_lines : (ls : List Text) → All IsLine ls → content (join_lines ls) ≡ ls
unfolding content join_lines split_lines trim trim_start trim_end
content-join_lines [] h = refl
content-join_lines (l ∷ []) h = rw (split_lines_of_IsOneLine l h.0.2, h.0.0, h.0.1)
content-join_lines (l ∷ m ∷ ls) h =
    rw (split_lines-append l (join_lines (m ∷ ls)) h.0.2, h.0.0, h.0.1)
      (ap (◌∷◌ l) (content-join_lines (m ∷ ls) h.1))

normalize_output_lem : (s : Text) → normalize_output s ≡ join_lines (content s)
unfolding normalize_output content
normalize_output_lem s = ap join_lines (unfold content in content-trim s)

content-IsLine : (s : Text) → All IsLine (content s)
unfolding content
content-IsLine s = content_lines-IsLine (split_lines s) (split_lines-IsOneLine s)

content-normalize_output : (s : Text) → content (normalize_output s) ≡ content s
content-normalize_output s =
    ap content (normalize_output_lem s) ∙ content-join_lines (content s) (content-IsLine s)

text_eq_iff : (s t : Text) → (text_eq s t ≡ true) ↔ (s ≡ t)
unfolding text_eq
text_eq_iff [] [] = ground arith
text_eq_iff (c ∷ s) (d ∷ t) = ground (arith, text_eq_iff s t)
text_eq_iff [] (d ∷ t) = (λ h. cc, λ h. cc)
text_eq_iff (c ∷ s) [] = (λ h. cc, λ h. cc)

-- Two outputs compare as equal exactly when they have the same lines, in the same order, once each
-- line is trimmed and blank lines are left out.
pub compare_output_iff :
    (actual expected : Text)
    → (compare_output actual expected ≡ true) ↔ (content actual ≡ content expected)
unfolding compare_output
compare_output_iff actual expected = (
  λ h.
      sym (content-normalize_output actual)
      ∙ ap content ((text_eq_iff (normalize_output actual) (normalize_output expected)).0 h)
      ∙ content-normalize_output expected,
  λ e.
      (text_eq_iff (normalize_output actual) (normalize_output expected)).1
        (normalize_output_lem actual ∙ ap join_lines e ∙ sym (normalize_output_lem expected)),
)

-- Normalising an output a second time changes nothing.
normalize_output_idem : (s : Text) → normalize_output (normalize_output s) ≡ normalize_output s
normalize_output_idem s =
    normalize_output_lem (normalize_output s)
    ∙ ap join_lines (content-normalize_output s)
    ∙ sym (normalize_output_lem s)

-- White space, newlines included, before and after an output does not change any comparison.
compare_output-padded :
    (v w s t : Text)
    → AllSpace v
    → AllSpace w
    → compare_output (v ++ (s ++ w)) t ≡ compare_output s t
unfolding compare_output
compare_output-padded v w s t hv hw =
    ap (λ x. text_eq x (normalize_output t))
      (normalize_output_lem (v ++ (s ++ w))
        ∙ ap join_lines (content-prepend v (s ++ w) hv ∙ content-append s w hw)
        ∙ sym (normalize_output_lem s))

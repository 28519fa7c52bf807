-- ===== src/Sse/Framing.antt =====
-- Lines that are joined, and closed by a blank line, are found again.
use integr8s_code.Base.{
  ℕ, ◌≡◌, ◌≢◌, refl, ap, ◌∙◌, arith, List, [], ◌∷◌, ◌++◌, Text, Lacks, All, append_assoc,
  append-nil,
}
use integr8s_code.Sse.{lf, split_chunks, split_lines, cons_first, cons_piece, join_lines}

-- A line that is not blank.
abbrev pub IsLine : Text → Type 0
IsLine [] = ⊥
IsLine (c ∷ s) = Lacks lf (c ∷ s)

-- `split_chunks` takes such lines as they are, up to the blank line behind them.
abbrev cons_all : Text → List Text × Text → List Text × Text
cons_all [] p = p
cons_all (c ∷ s) p = cons_first c (cons_all s p)

split_chunks-cons :
    (c : ℕ) (t : Text) → c ≢ lf → split_chunks (c ∷ t) ≡ cons_first c (split_chunks t)
unfolding split_chunks
split_chunks-cons c [] h = refl
split_chunks-cons c (d ∷ t) h = ground arith

split_chunks-line : (s t : Text) → Lacks lf s → split_chunks (s ++ t) ≡ cons_all s (split_chunks t)
split_chunks-line [] t h = refl
split_chunks-line (c ∷ s) t h =
    split_chunks-cons c (s ++ t) h.0 ∙ ap (cons_first c) (split_chunks-line s t h.1)

split_chunks-blank : (t : Text) → split_chunks (lf ∷ lf ∷ t) ≡ cons_piece (split_chunks t)
unfolding split_chunks
split_chunks-blank t = refl

split_chunks-next :
    (c : ℕ) (t : Text) → c ≢ lf → split_chunks (lf ∷ c ∷ t) ≡ cons_first lf (split_chunks (c ∷ t))
unfolding split_chunks
split_chunks-next c t h = ground arith

cons_all-piece :
    (s piece : Text) (pieces : List Text) (rest : Text)
    → cons_all s (piece ∷ pieces, rest) ≡ ((s ++ piece) ∷ pieces, rest)
cons_all-piece [] piece pieces rest = refl
cons_all-piece (c ∷ s) piece pieces rest = ap (cons_first c) (cons_all-piece s piece pieces rest)

split_chunks-join_next :
    (e : ℕ) (u : Text) (lines : List Text) (t : Text)
    → e ≢ lf
    → split_chunks (lf ∷ (join_lines ((e ∷ u) ∷ lines) ++ t))
      ≡ cons_first lf (split_chunks (join_lines ((e ∷ u) ∷ lines) ++ t))
unfolding join_lines
split_chunks-join_next e u [] t h = split_chunks-next e (u ++ t) h
split_chunks-join_next e u (l ∷ ls) t h =
    split_chunks-next e ((u ++ lf ∷ join_lines (l ∷ ls)) ++ t) h

pub split_chunks-join_lines :
    (lines : List Text) (t : Text)
    → All IsLine lines
    → lines ≢ []
    → split_chunks (join_lines lines ++ lf ∷ lf ∷ t)
      ≡ (join_lines lines ∷ (split_chunks t).0, (split_chunks t).1)
unfolding join_lines
split_chunks-join_lines [] t h ne = absurd (ne refl)
split_chunks-join_lines ([] ∷ lines) t h ne = absurd h.0
split_chunks-join_lines ((c ∷ s) ∷ []) t h ne =
    split_chunks-line (c ∷ s) (lf ∷ lf ∷ t) h.0
    ∙ ap (cons_all (c ∷ s)) (split_chunks-blank t)
    ∙ cons_all-piece (c ∷ s) [] _ _
    ∙ rw append-nil
split_chunks-join_lines ((c ∷ s) ∷ [] ∷ lines) t h ne = absurd h.1.0
split_chunks-join_lines ((c ∷ s) ∷ (e ∷ u) ∷ lines) t h ne =
    let more = (e ∷ u) ∷ lines in
    let end = lf ∷ lf ∷ t in
    ap split_chunks (append_assoc (c ∷ s) (lf ∷ join_lines more) end)
    ∙ split_chunks-line (c ∷ s) (lf ∷ (join_lines more ++ end)) h.0
    ∙ ap (cons_all (c ∷ s)) (split_chunks-join_next e u lines end h.1.0.0)
    ∙ ap (λ p. cons_all (c ∷ s) (cons_first lf p))
        (split_chunks-join_lines ((e ∷ u) ∷ lines) t h.1 (cc))
    ∙ cons_all-piece (c ∷ s) (lf ∷ join_lines more) (split_chunks t).0 (split_chunks t).1

split_lines-line : (s : Text) → Lacks lf s → split_lines s ≡ s ∷ []
unfolding split_lines
split_lines-line [] h = refl
split_lines-line (c ∷ s) h = ground (arith, split_lines-line s h.1)

split_lines-append : (s t : Text) → Lacks lf s → split_lines (s ++ lf ∷ t) ≡ s ∷ split_lines t
unfolding split_lines
split_lines-append [] t h = refl
split_lines-append (c ∷ s) t h = ground (arith, split_lines-append s t h.1)

pub split_lines-join_lines :
    (lines : List Text) → All (Lacks lf) lines → lines ≢ [] → split_lines (join_lines lines) ≡ lines
unfolding join_lines
split_lines-join_lines [] h ne = absurd (ne refl)
split_lines-join_lines (l ∷ []) h ne = split_lines-line l h.0
split_lines-join_lines (l ∷ k ∷ lines) h ne =
    split_lines-append l (join_lines (k ∷ lines)) h.0
    ∙ ap (λ ls. l ∷ ls) (split_lines-join_lines (k ∷ lines) h.1 (cc))

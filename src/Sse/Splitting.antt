-- ===== src/Sse/Splitting.antt =====
-- How the network cuts a stream into reads does not change what is read from it.
use integr8s_code.Base.{
  ℕ, ◌≡◌, ◌≢◌, refl, sym, ap, ◌∙◌, arith, Bool-cases, inl, inr, ◌&&◌, Option, none, some, List, [],
  ◌∷◌, ◌++◌, Text, Lacks, All, All-append, append_assoc, append-nil, ◌==◌,
}
use integr8s_code.Sse.{lf, cr, normalize, split_chunks, cons_first, Memory}
use integr8s_code.Sse.Connection.{
  Decoder, Progress, StreamEvent, process, and_then, read_all, before, event_of, fields_of,
}

pub normalize-Lacks : (s : Text) → Lacks cr s → normalize s ≡ s
unfolding normalize
normalize-Lacks [] h = refl
normalize-Lacks (c ∷ []) h = ground arith
normalize-Lacks (c ∷ d ∷ s) h = ground (arith, normalize-Lacks (d ∷ s) h.1)

cons_first-Lacks :
    (c d : ℕ) (p : List Text × Text) → d ≢ c → Lacks c p.1 → Lacks c (cons_first d p).1
cons_first-Lacks c d ([], rest) ne h = (ne, h)
cons_first-Lacks c d (x ∷ xs, rest) ne h = h

-- What is left behind the chunks holds nothing that the text does not hold.
split_chunks-Lacks : (c : ℕ) (s : Text) → Lacks c s → Lacks c (split_chunks s).1
unfolding split_chunks
split_chunks-Lacks c [] h = tt
split_chunks-Lacks c (d ∷ []) h = h
split_chunks-Lacks c (d ∷ e ∷ s) h = elim (Bool-cases (d == lf && e == lf)) [
  | inl same ↦ rw same (split_chunks-Lacks c s h.1.1)
  | inr other ↦
      rw other (cons_first-Lacks c d (split_chunks (e ∷ s)) h.0 (split_chunks-Lacks c (e ∷ s) h.1))
]

cons_first-ne-nil :
    (c : ℕ) (p : List Text × Text)
    → (cons_first c p).0 ≡ []
    → (p.0 ≡ []) × ((cons_first c p).1 ≡ c ∷ p.1)
cons_first-ne-nil c ([], rest) h = (refl, refl)
cons_first-ne-nil c (x ∷ xs, rest) h = cc

-- A text with no chunk is left as it is.
split_chunks-rest : (s : Text) → (split_chunks s).0 ≡ [] → (split_chunks s).1 ≡ s
unfolding split_chunks
split_chunks-rest [] h = refl
split_chunks-rest (c ∷ []) h = refl
split_chunks-rest (c ∷ d ∷ s) h = elim (Bool-cases (c == lf && d == lf)) [
  | inl same ↦ cc (rw same at h)
  | inr other ↦
      let first = cons_first-ne-nil c (split_chunks (d ∷ s)) (rw other at h) in
      rw other (first.1 ∙ ap (λ t. c ∷ t) (split_chunks-rest (d ∷ s) first.0))
]

abbrev continue : List Text × Text → Text → List Text × Text
continue (pieces, rest) t = let (more, end) = split_chunks (rest ++ t) in (pieces ++ more, end)

continue-cons_first :
    (c : ℕ) (t : Text) (p : List Text × Text)
    → (p.0 ≡ [] → split_chunks (c ∷ (p.1 ++ t)) ≡ cons_first c (split_chunks (p.1 ++ t)))
    → cons_first c (continue p t) ≡ continue (cons_first c p) t
continue-cons_first c t ([], rest) h = sym (h refl)
continue-cons_first c t (x ∷ xs, rest) h = refl

split_chunks-append : (s t : Text) → split_chunks (s ++ t) ≡ continue (split_chunks s) t
unfolding split_chunks
split_chunks-append [] t = refl
split_chunks-append (c ∷ []) t = refl
split_chunks-append (c ∷ d ∷ s) t = elim (Bool-cases (c == lf && d == lf)) [
  | inl same ↦ rw (same, split_chunks-append s t)
  | inr other ↦
      rw (other, split_chunks-append (d ∷ s) t)
        (continue-cons_first c t (split_chunks (d ∷ s))
          (λ none. rw (split_chunks-rest (d ∷ s) none) (rw other)))
]

abbrev pub concat : List Text → Text
concat [] = []
concat (v ∷ vs) = v ++ concat vs

module _ (d : Decoder) where
  before-and_then :
      (e : Option (StreamEvent d.J)) (m : Memory) (p : Progress d.J) (f : Memory → Progress d.J)
      → before d e m (and_then d p (f p.memory))
        ≡ and_then d (before d e m p) (f (before d e m p).memory)
  unfolding before and_then
  before-and_then none m p f = refl
  before-and_then (some e) m p f = elim (Bool-cases p.thrown) [
    | inl stop ↦ simp stop
    | inr on ↦ simp on
  ]

  process-append :
      (xs ys : List Text) (m : Memory)
      → process d (xs ++ ys) m ≡ and_then d (process d xs m) (process d ys (process d xs m).memory)
  unfolding process
  process-append [] ys m = unfold and_then in refl
  process-append (x ∷ xs) ys m =
      let f = fields_of x m in
      rw (process-append xs ys f.memory)
        (before-and_then (event_of d f) f.memory (process d xs f.memory) (process d ys))

  regroup :
      (p q : Progress d.J) (f : Memory → Progress d.J)
      → and_then d p (and_then d q (f q.memory))
        ≡ and_then d (and_then d p q) (f (and_then d p q).memory)
  unfolding and_then
  regroup p q f = elim (Bool-cases p.thrown) [
    | inl stop ↦ simp stop
    | inr on ↦ elim (Bool-cases q.thrown) [
      | inl stop ↦ simp (on, stop)
      | inr on' ↦ simp (on, on', append_assoc)
    ]
  ]

  -- Two reads are as good as one.
  pub read_all-merge :
      (v w : Text) (vs : List Text) (buffer : Text) (m : Memory)
      → Lacks cr buffer
      → Lacks cr v
      → Lacks cr w
      → read_all d (v ∷ w ∷ vs) buffer m ≡ read_all d ((v ++ w) ∷ vs) buffer m
  unfolding read_all
  read_all-merge v w vs buffer m hb hv hw =
      let kept = All-append _ buffer v hb hv in
      let rest = (split_chunks (buffer ++ v)).1 in
      rw
        (
          ← append_assoc buffer v w,
          normalize-Lacks (buffer ++ v) kept,
          normalize-Lacks (rest ++ w)
              (All-append _ rest w (split_chunks-Lacks cr (buffer ++ v) kept) hw),
          normalize-Lacks ((buffer ++ v) ++ w) (All-append _ (buffer ++ v) w kept hw),
          split_chunks-append (buffer ++ v) w,
          process-append,
        )
        (regroup (process d (split_chunks (buffer ++ v)).0 m)
          (process d (split_chunks (rest ++ w)).0
            (process d (split_chunks (buffer ++ v)).0 m).memory)
          (read_all d vs (split_chunks (rest ++ w)).1))

  read_all-concat_from :
      (v : Text) (vs : List Text) (m : Memory)
      → Lacks cr v
      → All (Lacks cr) vs
      → read_all d (v ∷ vs) [] m ≡ read_all d ((v ++ concat vs) ∷ []) [] m
  read_all-concat_from v [] m h k = rw append-nil
  read_all-concat_from v (w ∷ vs) m h k =
      read_all-merge v w vs [] m tt h k.0
      ∙ read_all-concat_from (v ++ w) vs m (All-append _ v w h k.0) k.1
      ∙ ap (λ t. read_all d (t ∷ []) [] m) (append_assoc v w (concat vs))

  -- A stream without carriage returns gives the same events, the same memory and the same failure
  -- however the network cuts it into reads: those of one read of the whole text.
  pub read_all-concat :
      (reads : List Text) (m : Memory)
      → All (Lacks cr) reads
      → read_all d reads [] m ≡ read_all d (concat reads ∷ []) [] m
  read_all-concat [] m h = unfold read_all in refl
  read_all-concat (v ∷ vs) m h = read_all-concat_from v vs m h.0 h.1

-- ===== src/Store/Filed.antt =====
-- store/writer.py: what the index of a track holds between two operations, and that a line is added to it
-- at its end.
use icil_competition_orchest.Prelude.{
  ℕ, zero, suc, ◌+◌, ◌-◌, ◌*◌, ◌/◌, ◌≤◌, ◌<◌, max, ◌≡◌, refl, ap, List, [], ◌∷◌, ◌++◌, Option, none,
  some, arith, length, length-append, All, Option-cases, ◌⊎◌, inl, inr,
}
use native.Mathlib.Nat.{le-div_iff_mul-le, div-le_of_le-mul, div-mul-le_self, lt-mul-div-succ}
use mathlib.Core.List.{append_assoc, append-nil}
use icil_competition_orchest.Store.{IndexRecord}
use icil_competition_orchest.Store.Index.{
  Codec, Line, not_utf8, no_tab, tabbed, Part, part_lines, body_of, put_in, put_line, count_parts,
  parse, last_in, last_record, next_seq, part_of, read_lines, read_parts,
}

-- The records of a log, numbered one after another from `n`.
unfoldable pub NumberedFrom : ℕ → List IndexRecord → Type 0
NumberedFrom n [] = Unit
NumberedFrom n (r ∷ rs) = (r.seq ≡ n) × NumberedFrom (suc n) rs

unfoldable pub last_of : List IndexRecord → Option IndexRecord
last_of [] = none
last_of (r ∷ rs) = elim (last_of rs) [ none ↦ some r | some s ↦ some s ]

-- A file that ends in a newline, or is empty.
unfoldable pub IsWhole : Part → Type 0
IsWhole p = p.tail ≡ none

-- Whole parts that hold the records, read in order, and are as many as the records fill.
pub record IsFiled (c : Codec) (per : ℕ) (ps : List Part) (rs : List IndexRecord) : Type 0 where
  pub numbered : NumberedFrom 1 rs
  pub reads : read_parts c ps ≡ some rs
  pub last : last_record c ps ≡ last_of rs
  pub whole : All IsWhole ps
  pub enough : length rs ≤ count_parts ps * max 1 per
  pub full : count_parts ps * max 1 per ≤ length rs + max 1 per

NumberedFrom-append :
    (n : ℕ) (rs : List IndexRecord) (r : IndexRecord)
    → NumberedFrom n rs
    → r.seq ≡ n + length rs
    → NumberedFrom n (rs ++ r ∷ [])
unfolding NumberedFrom
NumberedFrom-append n [] r h e = ground arith
NumberedFrom-append n (x ∷ xs) r h e =
    (h.0, NumberedFrom-append (suc n) xs r h.1 (omega (arith, e)))

pub last_of-append : (rs : List IndexRecord) (r : IndexRecord) → last_of (rs ++ r ∷ []) ≡ some r
unfolding last_of
last_of-append [] r = refl
last_of-append (x ∷ xs) r = rw (last_of-append xs r)

last_of-seq :
    (n : ℕ) (rs : List IndexRecord)
    → NumberedFrom n rs
    → (last_of rs ≡ none) × (rs ≡ [])
      ⊎ ((s : IndexRecord) × (last_of rs ≡ some s) × (s.seq + 1 ≡ n + length rs))
unfolding NumberedFrom last_of
last_of-seq n [] h = inl (refl, refl)
last_of-seq n (x ∷ xs) h = elim (last_of-seq (suc n) xs h.1) [
  | inl (e, z) ↦ inr (x, ground (arith, e, z, h.0), ground (arith, e, z, h.0))
  | inr (s, e, q) ↦ inr (s, ground (arith, e), omega (arith, q))
]

module _ (c : Codec) (per : ℕ) where
  pub next_seq-IsFiled :
      (ps : List Part) (rs : List IndexRecord) → IsFiled c per ps rs → next_seq c ps ≡ length rs + 1
  unfolding next_seq
  next_seq-IsFiled ps rs h = elim (last_of-seq 1 rs h.numbered) [
    | inl (e, z) ↦ ground (arith, h.last, e, z)
    | inr (s, e, q) ↦ ground (arith, h.last, e, q)
  ]

module _ (c : Codec) where
  -- A line that parses to a record is read after the lines before it.
  read_lines-append :
      (ls : List Line) (l : Line) (rs : List IndexRecord) (r : IndexRecord)
      → read_lines c ls ≡ some rs
      → parse c l ≡ some r
      → read_lines c (ls ++ l ∷ []) ≡ some (rs ++ r ∷ [])
  unfolding read_lines parse body_of
  read_lines-append [] not_utf8 rs r h e = ground arith
  read_lines-append [] (no_tab b) rs r h e = ground arith
  read_lines-append [] (tabbed b s) rs r h e = ground arith
  read_lines-append (not_utf8 ∷ xs) l rs r h e = ground arith
  read_lines-append (no_tab b ∷ xs) l rs r h e = elim (Option-cases (read_lines c xs)) [
    | inl z ↦ ground (arith, z, h)
    | inr (qs, q) ↦ ground (arith, q, h, read_lines-append xs l qs r q e)
  ]
  read_lines-append (tabbed b s ∷ xs) l rs r h e = elim (Option-cases (read_lines c xs)) [
    | inl z ↦ ground (arith, z, h)
    | inr (qs, q) ↦ ground (arith, q, h, read_lines-append xs l qs r q e)
  ]

  last_in-append :
      (ls : List Line) (l : Line) (r : IndexRecord)
      → parse c l ≡ some r
      → last_in c (ls ++ l ∷ []) ≡ some r
  unfolding last_in
  last_in-append [] l r e = e
  last_in-append (x ∷ xs) l r e = rw (last_in-append xs l r e)

  part_lines-put_in :
      (l : Line) (p : Part) → IsWhole p → part_lines (put_in l p) ≡ part_lines p ++ l ∷ []
  unfolding part_lines put_in IsWhole
  part_lines-put_in l p w = ground (arith, w, append-nil p.lines, append-nil (p.lines ++ l ∷ []))

  -- A line that follows the lines of whole parts, in the last of them or in a new one.
  read_parts-put_line :
      (n : ℕ) (l : Line) (ps : List Part) (rs : List IndexRecord) (r : IndexRecord)
      → All IsWhole ps
      → count_parts ps ≤ suc n
      → read_parts c ps ≡ some rs
      → parse c l ≡ some r
      → read_parts c (put_line n l ps) ≡ some (rs ++ r ∷ [])
  unfolding read_parts put_line put_in part_lines IsWhole
  read_parts-put_line n l [] rs r w b h e = ground (arith, read_lines-append [] l [] r refl e, h)
  read_parts-put_line zero l (p ∷ []) rs r w b h e =
      elim (Option-cases (read_lines c (part_lines p))) [
        | inl z ↦ ground (arith, z, h)
        | inr (qs, q) ↦ ground (
          arith,
          q,
          h,
          part_lines-put_in l p w.0,
          append-nil qs,
          append-nil (qs ++ r ∷ []),
          read_lines-append (part_lines p) l qs r q e,
        )
      ]
  read_parts-put_line zero l (p ∷ q ∷ ps) rs r w b h e = ground arith
  read_parts-put_line (suc n) l (p ∷ ps) rs r w b h e =
      elim (Option-cases (read_lines c (part_lines p))) [
        | inl z ↦ ground (arith, z, h)
        | inr (qs, q) ↦ elim (Option-cases (read_parts c ps)) [
          | inl z ↦ ground (arith, q, z, h)
          | inr (ss, t) ↦ ground (
            arith,
            q,
            t,
            h,
            read_parts-put_line n l ps ss r w.1 (omega (arith, b)) t e,
            append_assoc qs ss (r ∷ []),
          )
        ]
      ]

  last_record-put_line :
      (n : ℕ) (l : Line) (ps : List Part) (r : IndexRecord)
      → All IsWhole ps
      → count_parts ps ≤ suc n
      → parse c l ≡ some r
      → last_record c (put_line n l ps) ≡ some r
  unfolding last_record put_line put_in part_lines IsWhole
  last_record-put_line n l [] r w b e = ground (arith, e)
  last_record-put_line zero l (p ∷ []) r w b e =
      ground (arith, part_lines-put_in l p w.0, last_in-append (part_lines p) l r e)
  last_record-put_line zero l (p ∷ q ∷ ps) r w b e = ground arith
  last_record-put_line (suc n) l (p ∷ ps) r w b e =
      ground (arith, last_record-put_line n l ps r w.1 (omega (arith, b)) e)

put_line-IsWhole :
    (n : ℕ) (l : Line) (ps : List Part) → All IsWhole ps → All IsWhole (put_line n l ps)
unfolding put_line put_in IsWhole
put_line-IsWhole n l [] w = (refl, tt)
put_line-IsWhole zero l (p ∷ ps) w = ground (arith, w.0, w.1)
put_line-IsWhole (suc n) l (p ∷ ps) w = (w.0, put_line-IsWhole n l ps w.1)

count_parts-put_line :
    (n : ℕ) (l : Line) (ps : List Part)
    → n ≤ count_parts ps
    → count_parts (put_line n l ps) ≡ max (suc n) (count_parts ps)
unfolding put_line
count_parts-put_line n l [] h = omega (arith, h)
count_parts-put_line zero l (p ∷ ps) h = omega (arith, h)
count_parts-put_line (suc n) l (p ∷ ps) h = omega (arith, h, count_parts-put_line n l ps)

part-le : (p n k : ℕ) → 0 < p → k * p ≤ n + p → k ≤ suc (n / p)
part-le p n zero pos h = omega arith
part-le p n (suc j) pos h =
    omega (arith, (le-div_iff_mul-le {k = p} {x = j} {y = n} pos).1 (omega (arith, h)))

grown : (p n q m : ℕ) → m ≡ suc q → q * p ≤ n → n < p * (q + 1) → (suc n ≤ m * p) × (m * p ≤ n + p)
grown p n q m e low high = (rw e (omega (arith, high)), rw e (omega (arith, low)))

drop : (n : ℕ) → n + 1 - 1 ≡ n
drop n = omega arith

-- The part that the next record goes to is the last one, or the one after it.
pub part_of-bounds :
    (per n k : ℕ)
    → n ≤ k * max 1 per
    → k * max 1 per ≤ n + max 1 per
    → (part_of per (n + 1) ≤ k)
      × (k ≤ suc (part_of per (n + 1)))
      × (suc n ≤ max (suc (part_of per (n + 1))) k * max 1 per)
      × (max (suc (part_of per (n + 1))) k * max 1 per ≤ n + max 1 per)
unfolding part_of
part_of-bounds per n k enough full =
    let pos : 0 < max 1 per = omega arith in
    let before = div-le_of_le-mul (max 1 per) {m = n} {n = k} (omega (arith, enough)) in
    let after = part-le (max 1 per) n k pos full in
    let sizes =
      grown (max 1 per) n (n / max 1 per) (max (suc (n / max 1 per)) k)
        (omega (arith, before, after)) (div-mul-le_self n (max 1 per)) (lt-mul-div-succ n pos) in
    let whole : part_of per (n + 1) ≡ n / max 1 per = ap (λ m. m / max 1 per) (drop n) in
    rw whole (before, after, sizes.0, sizes.1)

module _ (c : Codec) (per : ℕ) where
  -- A filed index takes the next record at its end: in its last part, or in a new one where that is full.
  pub put_line-IsFiled :
      (ps : List Part) (rs : List IndexRecord) (l : Line) (r : IndexRecord)
      → IsFiled c per ps rs
      → parse c l ≡ some r
      → r.seq ≡ length rs + 1
      → IsFiled c per (put_line (part_of per (length rs + 1)) l ps) (rs ++ r ∷ [])
  put_line-IsFiled ps rs l r h e n =
      let m = part_of per (length rs + 1) in
      let b = part_of-bounds per (length rs) (count_parts ps) h.enough h.full in
      let long = length-append rs (r ∷ []) in
      let count = count_parts-put_line (part_of per (length rs + 1)) l ps b.0 in
      record {
        numbered = NumberedFrom-append 1 rs r h.numbered (omega (arith, n));
        reads = read_parts-put_line c m l ps rs r h.whole b.1 h.reads e;
        last = rw (last_of-append rs r) (last_record-put_line c m l ps r h.whole b.1 e);
        whole = put_line-IsWhole m l ps h.whole;
        enough = rw (long, count) (omega (arith, b.2));
        full = rw (long, count) (omega (arith, b.3));
      }

  pub part_of-IsFiled :
      (ps : List Part) (rs : List IndexRecord)
      → IsFiled c per ps rs
      → part_of per (length rs + 1) ≤ count_parts ps
  part_of-IsFiled ps rs h = (part_of-bounds per (length rs) (count_parts ps) h.enough h.full).0

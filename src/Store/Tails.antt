-- ===== src/Store/Tails.antt =====
-- store/writer.py: what `repair_tail` makes of a line whose write was cut short.
use icil_competition_orchest.Prelude.{
  ℕ, zero, suc, ◌+◌, ◌≤◌, max, ◌≡◌, refl, true, false, List, [], ◌∷◌, ◌++◌, none, some, leb, arith,
  length, All,
}
use icil_competition_orchest.Store.{IndexRecord}
use icil_competition_orchest.Store.Index.{
  Codec, Line, Part, put_in, put_line, count_parts, parse, is_signed_line, repair_part,
  repair_parts, part_of, read_parts, part_lines, last_record, read_lines, last_in,
}
use icil_competition_orchest.Store.Filed.{IsFiled, IsWhole, put_line-IsFiled, part_of-bounds}

-- A part that ends in a piece of a line, or in a line that lost its newline.
unfoldable pub put_tail : ℕ → Line → List Part → List Part
put_tail n l [] = record { lines = []; tail = some l } ∷ []
put_tail zero l (p ∷ ps) = record p { tail = some l } ∷ ps
put_tail (suc n) l (p ∷ ps) = p ∷ put_tail n l ps

pub repair_parts-whole : (c : Codec) (ps : List Part) → All IsWhole ps → repair_parts c ps ≡ ps
unfolding repair_parts repair_part IsWhole
repair_parts-whole c [] w = refl
repair_parts-whole c (p ∷ []) w = ground arith
repair_parts-whole c (p ∷ q ∷ ps) w = ground (arith, repair_parts-whole c (q ∷ ps) w.1)

repair_parts-signed :
    (c : Codec) (n : ℕ) (l : Line) (ps : List Part)
    → All IsWhole ps
    → count_parts ps ≤ suc n
    → is_signed_line c l ≡ true
    → repair_parts c (put_tail n l ps) ≡ put_line n l ps
unfolding repair_parts repair_part IsWhole put_tail put_line put_in
repair_parts-signed c n l [] w b s = ground arith
repair_parts-signed c zero l (p ∷ []) w b s = ground arith
repair_parts-signed c zero l (p ∷ q ∷ ps) w b s = ground arith
repair_parts-signed c (suc n) l (p ∷ []) w b s = ground arith
repair_parts-signed c (suc zero) l (p ∷ q ∷ ps) w b s =
    ground (arith, repair_parts-signed c zero l (q ∷ ps) w.1 (omega (arith, b)) s)
repair_parts-signed c (suc (suc n)) l (p ∷ q ∷ ps) w b s =
    ground (arith, repair_parts-signed c (suc n) l (q ∷ ps) w.1 (omega (arith, b)) s)

-- The part that a torn first line opened stays, empty.
opened : ℕ → List Part → List Part
opened n [] = record { lines = []; tail = none } ∷ []
opened zero (p ∷ ps) = p ∷ ps
opened (suc n) (p ∷ ps) = p ∷ opened n ps

repair_parts-torn :
    (c : Codec) (n : ℕ) (l : Line) (ps : List Part)
    → All IsWhole ps
    → count_parts ps ≤ suc n
    → is_signed_line c l ≡ false
    → repair_parts c (put_tail n l ps) ≡ opened n ps
unfolding repair_parts repair_part IsWhole put_tail opened
repair_parts-torn c n l [] w b s = ground arith
repair_parts-torn c zero l (p ∷ []) w b s = ground arith
repair_parts-torn c zero l (p ∷ q ∷ ps) w b s = ground arith
repair_parts-torn c (suc n) l (p ∷ []) w b s = ground arith
repair_parts-torn c (suc zero) l (p ∷ q ∷ ps) w b s =
    ground (arith, repair_parts-torn c zero l (q ∷ ps) w.1 (omega (arith, b)) s)
repair_parts-torn c (suc (suc n)) l (p ∷ q ∷ ps) w b s =
    ground (arith, repair_parts-torn c (suc n) l (q ∷ ps) w.1 (omega (arith, b)) s)

read_parts-opened :
    (c : Codec) (n : ℕ) (ps : List Part) → read_parts c (opened n ps) ≡ read_parts c ps
unfolding read_parts opened read_lines part_lines
read_parts-opened c n [] = refl
read_parts-opened c zero (p ∷ ps) = refl
read_parts-opened c (suc n) (p ∷ ps) = ground (arith, read_parts-opened c n ps)

last_record-opened :
    (c : Codec) (n : ℕ) (ps : List Part) → last_record c (opened n ps) ≡ last_record c ps
unfolding last_record opened last_in part_lines
last_record-opened c n [] = refl
last_record-opened c zero (p ∷ ps) = refl
last_record-opened c (suc n) (p ∷ ps) = rw (last_record-opened c n ps)

opened-IsWhole : (n : ℕ) (ps : List Part) → All IsWhole ps → All IsWhole (opened n ps)
unfolding opened IsWhole
opened-IsWhole n [] w = (refl, tt)
opened-IsWhole zero (p ∷ ps) w = w
opened-IsWhole (suc n) (p ∷ ps) w = (w.0, opened-IsWhole n ps w.1)

count_parts-opened :
    (n : ℕ) (ps : List Part)
    → n ≤ count_parts ps
    → count_parts (opened n ps) ≡ max (suc n) (count_parts ps)
unfolding opened
count_parts-opened n [] h = omega (arith, h)
count_parts-opened zero (p ∷ ps) h = omega (arith, h)
count_parts-opened (suc n) (p ∷ ps) h = omega (arith, h, count_parts-opened n ps)

module _ (c : Codec) (per : ℕ) where
  opened-IsFiled :
      (ps : List Part) (rs : List IndexRecord)
      → IsFiled c per ps rs
      → IsFiled c per (opened (part_of per (length rs + 1)) ps) rs
  opened-IsFiled ps rs h =
      let m = part_of per (length rs + 1) in
      let b = part_of-bounds per (length rs) (count_parts ps) h.enough h.full in
      let count = count_parts-opened (part_of per (length rs + 1)) ps b.0 in
      record {
        numbered = h.numbered;
        reads = rw (read_parts-opened c m ps) h.reads;
        last = rw (last_record-opened c m ps) h.last;
        whole = opened-IsWhole m ps h.whole;
        enough = rw count (omega (arith, b.2));
        full = rw count (omega (arith, b.3));
      }

  -- Both repairs of a cut write.
  pub torn-IsFiled :
      (ps : List Part) (rs : List IndexRecord) (l : Line)
      → IsFiled c per ps rs
      → is_signed_line c l ≡ false
      → IsFiled c per (repair_parts c (put_tail (part_of per (length rs + 1)) l ps)) rs
  torn-IsFiled ps rs l h s =
      let b = part_of-bounds per (length rs) (count_parts ps) h.enough h.full in
      rw (repair_parts-torn c (part_of per (length rs + 1)) l ps h.whole b.1 s)
        (opened-IsFiled ps rs h)

  pub unended-IsFiled :
      (ps : List Part) (rs : List IndexRecord) (l : Line) (r : IndexRecord)
      → IsFiled c per ps rs
      → is_signed_line c l ≡ true
      → parse c l ≡ some r
      → r.seq ≡ length rs + 1
      → IsFiled c per (repair_parts c (put_tail (part_of per (length rs + 1)) l ps)) (rs ++ r ∷ [])
  unended-IsFiled ps rs l r h s e n =
      let b = part_of-bounds per (length rs) (count_parts ps) h.enough h.full in
      rw (repair_parts-signed c (part_of per (length rs + 1)) l ps h.whole b.1 s)
        (put_line-IsFiled c per ps rs l r h e n)

pub within : (a b : ℕ) → a ≤ b → leb a b ≡ true
within a b h = ground arith

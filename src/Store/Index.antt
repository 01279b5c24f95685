-- ===== src/Store/Index.antt =====
-- store/writer.py: `index_parts`, `repair_tail`, `last_record`, `next_seq`, `part_of`, `append`,
-- `rebuild_head` and `iter_index`, for one track. The canonical encoding and the signatures are a
-- parameter: `json` and `nacl` compute them.
use icil_competition_orchest.Prelude.{
  ℕ, zero, suc, ◌+◌, ◌-◌, ◌/◌, max, String, ◌≡◌, Bool, true, false, List, [], ◌∷◌, ◌++◌, Option,
  none, some, leb, ◌==s◌, join, if◌then◌else◌, Result, ok, err,
}
use icil_competition_orchest.Ids.{SubmissionRef}
use icil_competition_orchest.Store.{IndexRecord, Head, king_after}

pub record Codec : Type 0 where
  -- `canonical_json`, and what a line's body parses to: a record with an integer `seq`
  pub encode : IndexRecord → String
  pub decode : String → Option IndexRecord
  -- the signer, and `verify_signature` under its key
  pub sign : String → String
  pub verify : String → String → Bool
  -- `SIGNATURE_RE.fullmatch`
  pub is_signature : String → Bool
  pub sha256 : String → String

pub record CodecLaws (c : Codec) : Type 0 where
  pub decode_encode : (r : IndexRecord) → c.decode (c.encode r) ≡ some r
  pub verify_sign : (body : String) → c.verify body (c.sign body) ≡ true
  pub sign_form : (body : String) → c.is_signature (c.sign body) ≡ true

-- The bytes between two newlines.
pub data Line : Type 0 where
  not_utf8 : Line
  no_tab : String → Line
  tabbed : String → String → Line

-- A part's complete lines, and what follows the last newline, if anything does.
pub record Part : Type 0 where
  pub lines : List Line
  pub tail : Option Line

-- One track: the parts `index-0000.jsonl`, `index-0001.jsonl`, ... up to the first that is missing, the
-- lines that were written to a part beyond a missing one, the head, and the events' bytes by id.
pub record Track : Type 0 where
  pub parts : List Part
  pub beyond : List (ℕ × Line)
  pub head : Option Head
  pub events : List (String × String)

pub data StoreError : Type 0 where
  no_event : StoreError

abbrev pub tail_lines : Option Line → List Line
tail_lines none = []
tail_lines (some l) = l ∷ []

unfoldable pub part_lines : Part → List Line
part_lines p = p.lines ++ tail_lines p.tail

unfoldable pub body_of : Line → Option String
body_of not_utf8 = none
body_of (no_tab body) = some body
body_of (tabbed body sig) = some body

unfoldable pub event_of : String → List (String × String) → Option String
event_of id [] = none
event_of id ((i, bytes) ∷ es) = if i ==s id then some bytes else event_of id es

-- What a line becomes whose bytes follow an unterminated one's.
unfoldable pub glue : Line → Line → Line
glue not_utf8 l = not_utf8
glue t not_utf8 = not_utf8
glue (no_tab b) (no_tab c) = no_tab (join b c)
glue (no_tab b) (tabbed c s) = tabbed (join b c) s
glue (tabbed b s) (no_tab c) = tabbed b (join s c)
glue (tabbed b s) (tabbed c r) = tabbed b (join s (join c (join "\t" r)))

unfoldable pub put_in : Line → Part → Part
unfolding glue
put_in l p = elim p.tail [
  | none ↦ record { lines = p.lines ++ l ∷ []; tail = none }
  | some t ↦ record { lines = p.lines ++ glue t l ∷ []; tail = none }
]

-- A line appended to part `n`: a new last part where `n` is the next one.
unfoldable pub put_line : ℕ → Line → List Part → List Part
unfolding put_in
put_line n l [] = record { lines = l ∷ []; tail = none } ∷ []
put_line zero l (p ∷ ps) = put_in l p ∷ ps
put_line (suc n) l (p ∷ ps) = p ∷ put_line n l ps

abbrev pub count_parts : List Part → ℕ
count_parts [] = 0
count_parts (p ∷ ps) = suc (count_parts ps)

module _ (c : Codec) where
  unfoldable pub parse : Line → Option IndexRecord
  unfolding body_of
  parse l = elim (body_of l) [ none ↦ none | some body ↦ c.decode body ]

  unfoldable pub is_signed_line : Line → Bool
  is_signed_line not_utf8 = false
  is_signed_line (no_tab body) = false
  is_signed_line (tabbed body sig) = c.verify body sig

  -- The newest part made to end in a whole line: a complete signed record that lost only its newline is
  -- completed, anything else is dropped.
  unfoldable pub repair_part : Part → Part
  unfolding is_signed_line
  repair_part p = elim p.tail [
    | none ↦ p
    | some l ↦
        if is_signed_line l
        then record { lines = p.lines ++ l ∷ []; tail = none }
        else record { lines = p.lines; tail = none }
  ]

  unfoldable pub repair_parts : List Part → List Part
  unfolding repair_part
  repair_parts [] = []
  repair_parts (p ∷ []) = repair_part p ∷ []
  repair_parts (p ∷ q ∷ ps) = p ∷ repair_parts (q ∷ ps)

  -- The last line of a part that holds a record, and so of the newest part that has one.
  unfoldable pub last_in : List Line → Option IndexRecord
  unfolding parse
  last_in [] = none
  last_in (l ∷ ls) = elim (last_in ls) [ none ↦ parse l | some r ↦ some r ]

  unfoldable pub last_record : List Part → Option IndexRecord
  unfolding last_in part_lines
  last_record [] = none
  last_record (p ∷ ps) = elim (last_record ps) [ none ↦ last_in (part_lines p) | some r ↦ some r ]

  unfoldable pub next_seq : List Part → ℕ
  unfolding last_record
  next_seq ps = elim (last_record ps) [ none ↦ 1 | some r ↦ r.seq + 1 ]

  -- The line that `append` writes, and the record it holds.
  unfoldable pub line_of : IndexRecord → Line
  line_of r = tabbed (c.encode r) (c.sign (c.encode r))

unfoldable pub part_of : ℕ → ℕ → ℕ
part_of per seq = (seq - 1) / max 1 per

-- The head that `append` and `rebuild_head` write for a last record and a king.
unfoldable pub head_of : IndexRecord → Option SubmissionRef → Head
head_of r king = record {
  seq = r.seq;
  event_id = r.event_id;
  block = r.block;
  finished_at = r.finished_at;
  king = king;
}

unfoldable pub head_king : Option Head → Option SubmissionRef
head_king none = none
head_king (some h) = h.king

module _ (c : Codec) (per : ℕ) where
  -- The record as it is signed: with its event's hash and the next sequence number.
  unfoldable pub numbered : IndexRecord → String → List Part → IndexRecord
  unfolding next_seq
  numbered r bytes ps = record r { seq = next_seq c ps; event_sha256 = some (c.sha256 bytes) }

  -- `append` up to the write of the index line, with the record that was written.
  unfoldable pub append_line : IndexRecord → String → Track → IndexRecord × Track
  unfolding repair_parts numbered line_of put_line part_of
  append_line r bytes t =
      let parts = repair_parts c t.parts in
      let signed = numbered r bytes parts in
      let n = part_of per signed.seq in
      (
        signed,
        if leb n (count_parts parts)
            then record t { parts = put_line n (line_of c signed) parts }
            else record t { parts = parts; beyond = t.beyond ++ (n, line_of c signed) ∷ [] },
      )

  unfoldable pub append : IndexRecord → Track → Result StoreError ℕ × Track
  unfolding event_of append_line head_of head_king
  append r t = elim (event_of r.event_id t.events) [
    | none ↦ (err no_event, t)
    | some bytes ↦
        let (signed, t') = append_line r bytes t in
        (
          ok signed.seq,
          record t' { head = some (head_of signed (king_after signed (head_king t'.head))) },
        )
  ]

module _ (c : Codec) where
  -- `iter_index` before its sort; a part that is not UTF-8 raises.
  unfoldable pub read_lines : List Line → Option (List IndexRecord)
  unfolding parse
  read_lines [] = some []
  read_lines (not_utf8 ∷ ls) = none
  read_lines (l ∷ ls) = elim (read_lines ls) [
    | none ↦ none
    | some rs ↦ elim (parse c l) [ none ↦ some rs | some r ↦ some (r ∷ rs) ]
  ]

  unfoldable pub read_parts : List Part → Option (List IndexRecord)
  unfolding read_lines part_lines
  read_parts [] = some []
  read_parts (p ∷ ps) = elim (read_lines (part_lines p)) [
    | none ↦ none
    | some rs ↦ elim (read_parts ps) [ none ↦ none | some ss ↦ some (rs ++ ss) ]
  ]

-- `out.sort(key=seq)`, which is stable.
unfoldable pub insert_seq : IndexRecord → List IndexRecord → List IndexRecord
insert_seq r [] = r ∷ []
insert_seq r (x ∷ xs) = if leb r.seq x.seq then r ∷ x ∷ xs else x ∷ insert_seq r xs

unfoldable pub sort_seq : List IndexRecord → List IndexRecord
unfolding insert_seq
sort_seq [] = []
sort_seq (r ∷ rs) = insert_seq r (sort_seq rs)

-- The last record and the king that the records crown, from the king before them.
unfoldable pub crowned :
    Option IndexRecord
    → Option SubmissionRef
    → List IndexRecord
    → Option (IndexRecord × Option SubmissionRef)
crowned none king [] = none
crowned (some last) king [] = some (last, king)
crowned last king (r ∷ rs) = crowned (some r) (king_after r king) rs

module _ (c : Codec) where
  unfoldable pub iter_index : Track → Option (List IndexRecord)
  unfolding read_parts sort_seq
  iter_index t = elim (read_parts c t.parts) [ none ↦ none | some rs ↦ some (sort_seq rs) ]

  -- `rebuild_head`: `none` where reading the index raises.
  unfoldable pub rebuild_head : Track → Option Track
  unfolding repair_parts iter_index crowned head_of
  rebuild_head t =
      let t' = record t { parts = repair_parts c t.parts } in
      elim (iter_index t') [
        | none ↦ none
        | some rs ↦ elim (crowned none none rs) [
          | none ↦ some t'
          | some (last, king) ↦ some (record t' { head = some (head_of last king) })
        ]
      ]

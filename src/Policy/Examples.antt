-- ===== src/Policy/Examples.antt =====
-- packages/icil-policy/src/icil_policy/client.py and serve.py: a client that shows one observation.
use icil_competition_orchest.Prelude.{
  ℕ, suc, ◌≡◌, refl, sym, ◌∙◌, String, true, false, List, [], ◌∷◌, Option, none, some, ◌==◌,
  if◌then◌else◌, ok, err, arith, inr, eq_iff, ap, ◌==s◌,
}
use icil_competition_orchest.Wire.{
  Json, text, object, no_member, member, Message, Received, product, nonzero_product, recv,
}
use icil_competition_orchest.Wire.Encode.{
  named, given, Arrays, given_or, value_of, header_of, sent_as, encode,
}
use icil_competition_orchest.Wire.Described.{array_of, sent_under}
use icil_competition_orchest.Wire.Examples.{sizes}
use icil_competition_orchest.Wire.Scenes.{Json-discrete, row, byte}
use icil_competition_orchest.Policy.{
  returned, raised, interrupted, mapping, Code, Texts, Format, Serving, is_action,
}
use icil_competition_orchest.Policy.Serve.{Session, Turn, max_message_bytes}
use icil_competition_orchest.Policy.Loop.{round}
use icil_competition_orchest.Policy.Call.{Remote, abandon, call}
use icil_competition_orchest.Policy.Client.{act}
use icil_competition_orchest.Policy.Replies.{Takes}
use icil_competition_orchest.Policy.Acts.{Moderate}
use icil_competition_orchest.Policy.Talk.{hears, exchange, calling, call-agrees}
use icil_competition_orchest.Policy.Answers.{IsUsable, act-answers}
use icil_competition_orchest.Policy.Unbuilt.{round-swapped}

abbrev shown : Arrays
shown = (named "x", some byte) ∷ []

abbrev moves : Arrays
moves = (named "action", some row) ∷ []

abbrev request_doc : Json
request_doc = header_of "act" no_member (sent_as "x" byte ∷ [])

abbrev reply_doc : Json
reply_doc = header_of "action" no_member (sent_as "action" row ∷ [])

abbrev op_text : Json → String
op_text (object (member protocol version (member key (text op) rest))) = op
op_text _ = ""

abbrev reply_or_none : {j : Json} → Dec (j ≡ reply_doc) → Option (List ℕ)
reply_or_none (yes same) = some (8 ∷ [])
reply_or_none (no other) = none

abbrev one_or_reply : {j : Json} → Dec (j ≡ request_doc) → Option (List ℕ) → Option (List ℕ)
one_or_reply (yes same) rest = some (7 ∷ [])
one_or_reply (no other) rest = rest

-- An encoder of two documents, with its decoder.
abbrev dumps_two : Json → Option (List ℕ)
dumps_two j = one_or_reply (Json-discrete j request_doc) (reply_or_none (Json-discrete j reply_doc))

abbrev loads_two : List ℕ → Option Json
loads_two [] = none
loads_two (n ∷ ns) = some (if n == 7 then request_doc else reply_doc)

reads_two : (j : Json) (b : List ℕ) → dumps_two j ≡ some b → loads_two b ≡ some j
reads_two j b = reads_by (Json-discrete j request_doc) (Json-discrete j reply_doc)
  where
    reads_by :
        (d : Dec (j ≡ request_doc)) (e : Dec (j ≡ reply_doc))
        → one_or_reply d (reply_or_none e) ≡ some b
        → loads_two b ≡ some j
    reads_by (yes same) e written = ground arith
    reads_by (no other) (yes same) written = ground arith
    reads_by (no other) (no another) written = cc

dumps_two-request : dumps_two request_doc ≡ some (7 ∷ [])
dumps_two-request = by_dec (Json-discrete request_doc request_doc)
  where
    by_dec :
        (d : Dec (request_doc ≡ request_doc))
        → one_or_reply d (reply_or_none (Json-discrete request_doc reply_doc)) ≡ some (7 ∷ [])
    by_dec (yes same) = refl
    by_dec (no other) = absurd (other refl)

dumps_two-reply : dumps_two reply_doc ≡ some (8 ∷ [])
unfolding header_of
dumps_two-reply = by_dec (Json-discrete reply_doc request_doc) (Json-discrete reply_doc reply_doc)
  where
    by_dec :
        (d : Dec (reply_doc ≡ request_doc)) (e : Dec (reply_doc ≡ reply_doc))
        → one_or_reply d (reply_or_none e) ≡ some (8 ∷ [])
    by_dec (yes same) e = let alike = (eq_iff "action" "act").1 (ap op_text same) in cc
    by_dec (no other) (yes same) = refl
    by_dec (no other) (no another) = absurd (another refl)

abbrev format : Format
format = record { itemsize = sizes; dumps = dumps_two; loads = loads_two }

abbrev texts : Texts
texts = record {
  repr = λ j. "?";
  repr_text = λ s. s;
  type_name = λ j. "object";
  str_of = λ j. "?";
  truth = λ j. true;
  names_in = λ l. "[]";
  shape_text = λ s. "(..)";
  why = λ e. "refused";
  np_shape = λ a. elim a [ none ↦ raised "ValueError" "ragged" | some r ↦ returned r.shape ];
}

-- A policy that counts its calls and always moves the same way.
abbrev counting : Code ℕ
counting = record {
  construct = returned (
      some (record {
        state = 0;
        declared = some "qpos";
        declared_text = "'qpos'";
        has_method = λ m. true;
      }));
  reset = λ p seed. (returned tt, 0);
  set_demonstration = λ p arrays info. (returned tt, p);
  act = λ p arrays. (returned (mapping moves), suc p);
  close = none;
}

-- One that cannot be imported.
abbrev broken : Code ℕ
broken = record {
  construct = raised "ImportError" "no module";
  reset = λ p seed. (interrupted, p);
  set_demonstration = λ p arrays info. (interrupted, p);
  act = λ p arrays. (interrupted, p);
  close = none;
}

abbrev serving : Serving ℕ
serving = record {
  format = format;
  texts = texts;
  manifest = record { policy = "m:P"; module_name = "m"; attribute = "P" };
  code = counting;
}

abbrev built : Session ℕ
built = record { policy = some 3; action_type = some "qpos"; unread = []; sent = [] }

abbrev unbuilt : Session ℕ
unbuilt = record { policy = none; action_type = none; unread = []; sent = [] }

abbrev client : Remote
client = record {
  address = "/s";
  timeout = "60";
  is_open = true;
  is_closed = false;
  action_type = some "qpos";
}

abbrev request : List (List ℕ)
request = (7 ∷ []) ∷ (5 ∷ []) ∷ []

abbrev reply : List (List ℕ)
reply = (8 ∷ []) ∷ (1 ∷ 2 ∷ 3 ∷ 4 ∷ []) ∷ []

encode-request : encode sizes dumps_two "act" (given no_member) (given shown) ≡ ok request
unfolding encode given_or
encode-request = rw dumps_two-request refl

moves-Takes : Takes serving refl moves
unfolding product nonzero_product
moves-Takes = ((λ b known. ground arith, tt), (refl, tt), omega arith)

moves-IsUsable : IsUsable serving moves row reply
unfolding encode given_or is_action
moves-IsUsable = record {
  there = refl;
  shaped = refl;
  usable = refl;
  framed_lem = rw dumps_two-reply refl;
}

counting-Moderate : Moderate serving refl
counting-Moderate p observation l was = let same : l ≡ moves = cc in rw same moves-Takes

act-answers_example :
    (rs : List Received) × (act
        (calling serving texts "")
        (exchange serving "" built)
        (given shown)
        client
      ≡ (ok rs, client))
    × ((n : String) → array_of n rs ≡ sent_under n (value_of n moves))
unfolding given_or product nonzero_product
act-answers_example =
    act-answers serving texts "" "" refl reads_two (given shown) shown request client built 3 moves
      row reply refl refl refl ((λ b known. ground arith), tt) (refl, tt) (omega arith)
      encode-request (λ heard same. refl) moves-IsUsable moves-Takes

call-agrees_example :
    (call
      (calling serving texts "")
      (exchange serving "" built)
      "act"
      (given no_member)
      (given shown)
      "action"
      client).1
    ≡ (elim (hears serving "" built request).0 [ ok _ ↦ client | err _ ↦ abandon client ])
unfolding given_or product nonzero_product
call-agrees_example =
    call-agrees serving texts "" "" refl reads_two "act" (given no_member) (given shown) no_member
      shown request client built counting-Moderate (inr (inr refl)) refl refl refl
      ((λ b known. ground arith), tt) (refl, tt) (omega arith) encode-request

-- An observation that arrives before `hello`.
abbrev early : Turn
early = record { silent = false; arrived = request; deaf = false; log_tail = "" }

recv-request :
    recv sizes loads_two max_message_bytes request
    ≡ ok (record { op = "act"; fields = no_member; arrays = sent_as "x" byte ∷ [] }, [])
unfolding recv header_of sent_as
recv-request = refl

not_hello :
    (m : Message) (left : List (List ℕ))
    → recv sizes loads_two max_message_bytes request ≡ ok (m, left)
    → (m.op ==s "hello") ≡ false
not_hello m left arrived =
    let pair = sym recv-request ∙ arrived in let asked : m.op ≡ "act" = cc in rw asked refl

round-swapped_example :
    round serving early unbuilt ≡ round (record serving { code = broken }) early unbuilt
round-swapped_example = round-swapped serving broken early unbuilt refl not_hello

-- ===== src/Store/Coded.antt =====
-- An encoding of records as texts that can be read back, in place of canonical JSON, and a signature that
-- can be computed: an instance of `Codec` for the tests.
use Prim.Native.Char.{Char, code}
use icil_competition_orchest.Prelude.{
  ℕ, zero, suc, String, ◌≡◌, refl, ap, ◌∙◌, Bool, true, false, List, [], ◌∷◌, Option, none, some,
  ◌==◌, ◌==s◌, if◌then◌else◌, eq_refl,
}
use icil_competition_orchest.Ids.{SubmissionRef}
use icil_competition_orchest.Store.{
  Kind, duel, genesis, succession, vacancy, other_kind, IndexRecord,
}
use icil_competition_orchest.Store.Index.{Codec, CodecLaws}

-- A text, its end marked, before another.
quote : String → String → String
quote String.[] t = String.◌∷◌ "e" t
quote (String.◌∷◌ c s) t = String.◌∷◌ "c" (String.◌∷◌ c (quote s t))

texts : List String → String
unfolding quote
texts [] = ""
texts (s ∷ ss) = quote s (texts ss)

push : Char → List String → List String
push c [] = []
push c (s ∷ ss) = String.◌∷◌ c s ∷ ss

untexts : String → List String
unfolding push
untexts String.[] = []
untexts (String.◌∷◌ m String.[]) = if code m == 101 then "" ∷ [] else []
untexts (String.◌∷◌ m (String.◌∷◌ c t)) =
    let rest = untexts t in
    let all_of = untexts (String.◌∷◌ c t) in if code m == 101 then "" ∷ all_of else push c rest

untexts-quote : (s t : String) → untexts (quote s t) ≡ s ∷ untexts t
unfolding untexts quote
untexts-quote String.[] String.[] = refl
untexts-quote String.[] (String.◌∷◌ c t) = refl
untexts-quote (String.◌∷◌ c s) t = ap (push c) (untexts-quote s t)

untexts-texts : (ss : List String) → untexts (texts ss) ≡ ss
unfolding untexts texts
untexts-texts [] = refl
untexts-texts (s ∷ ss) = untexts-quote s (texts ss) ∙ ap (λ r. s ∷ r) (untexts-texts ss)

unary : ℕ → String
unary zero = ""
unary (suc n) = String.◌∷◌ "a" (unary n)

counted : String → ℕ
counted String.[] = 0
counted (String.◌∷◌ c s) = suc (counted s)

counted-unary : (n : ℕ) → counted (unary n) ≡ n
unfolding counted unary
counted-unary zero = refl
counted-unary (suc n) = ap suc (counted-unary n)

put_bool : Bool → String
put_bool true = "a"
put_bool false = ""

get_bool : String → Bool
get_bool String.[] = false
get_bool (String.◌∷◌ c s) = true

kind_tag : Kind → ℕ
kind_tag duel = 0
kind_tag genesis = 1
kind_tag succession = 2
kind_tag vacancy = 3
kind_tag (other_kind k) = 4

kind_name : Kind → String
kind_name duel = ""
kind_name genesis = ""
kind_name succession = ""
kind_name vacancy = ""
kind_name (other_kind k) = k

get_kind : ℕ → String → Kind
get_kind zero k = duel
get_kind (suc zero) k = genesis
get_kind (suc (suc zero)) k = succession
get_kind (suc (suc (suc zero))) k = vacancy
get_kind (suc (suc (suc (suc n)))) k = other_kind k

tag : {A : Type 0} → Option A → String
tag none = ""
tag (some a) = "a"

-- A field of an optional reference, empty where there is none.
field : (SubmissionRef → String) → Option SubmissionRef → String
field f none = ""
field f (some r) = f r

get_ref : String → String → String → String → Option SubmissionRef
get_ref String.[] a b c = none
get_ref (String.◌∷◌ t ts) a b c = some (record { key = a; repo = b; revision = c })

given : Option String → String
given none = ""
given (some h) = h

get_hash : String → String → Option String
get_hash String.[] h = none
get_hash (String.◌∷◌ t ts) h = some h

fields_of : IndexRecord → List String
unfolding unary kind_tag kind_name tag field given put_bool
fields_of r =
    unary r.seq
    ∷ r.event_id
    ∷ r.track
    ∷ unary r.block
    ∷ r.finished_at
    ∷ put_bool r.dethroned
    ∷ unary (kind_tag r.kind)
    ∷ kind_name r.kind
    ∷ tag r.king
    ∷ field (λ k. k.key) r.king
    ∷ field (λ k. k.repo) r.king
    ∷ field (λ k. k.revision) r.king
    ∷ tag r.challenger
    ∷ field (λ k. k.key) r.challenger
    ∷ field (λ k. k.repo) r.challenger
    ∷ field (λ k. k.revision) r.challenger
    ∷ tag r.new_king
    ∷ field (λ k. k.key) r.new_king
    ∷ field (λ k. k.repo) r.new_king
    ∷ field (λ k. k.revision) r.new_king
    ∷ tag r.event_sha256
    ∷ given r.event_sha256
    ∷ []

of_fields : List String → Option IndexRecord
unfolding counted get_bool get_kind get_ref get_hash
of_fields
      (seq ∷ event_id ∷ track ∷ block ∷ finished ∷ moved ∷ k ∷ name ∷ a ∷ a1 ∷ a2 ∷ a3 ∷ b ∷ b1 ∷ b2
        ∷ b3 ∷ c ∷ c1 ∷ c2 ∷ c3 ∷ h ∷ hash ∷ []) =
    some (record {
      seq = counted seq;
      event_id = event_id;
      kind = get_kind (counted k) name;
      track = track;
      block = counted block;
      finished_at = finished;
      king = get_ref a a1 a2 a3;
      challenger = get_ref b b1 b2 b3;
      new_king = get_ref c c1 c2 c3;
      dethroned = get_bool moved;
      event_sha256 = get_hash h hash;
    })
of_fields fs = none

get_bool-put_bool : (b : Bool) → get_bool (put_bool b) ≡ b
unfolding get_bool put_bool
get_bool-put_bool true = refl
get_bool-put_bool false = refl

get_kind-tag : (k : Kind) → get_kind (kind_tag k) (kind_name k) ≡ k
unfolding get_kind kind_tag kind_name
get_kind-tag duel = refl
get_kind-tag genesis = refl
get_kind-tag succession = refl
get_kind-tag vacancy = refl
get_kind-tag (other_kind k) = refl

get_ref-field :
    (o : Option SubmissionRef)
    → get_ref (tag o) (field (λ k. k.key) o) (field (λ k. k.repo) o) (field (λ k. k.revision) o) ≡ o
unfolding get_ref tag field
get_ref-field none = refl
get_ref-field (some r) = refl

get_hash-given : (o : Option String) → get_hash (tag o) (given o) ≡ o
unfolding get_hash tag given
get_hash-given none = refl
get_hash-given (some h) = refl

of_fields-fields_of : (r : IndexRecord) → of_fields (fields_of r) ≡ some r
unfolding of_fields fields_of
of_fields-fields_of r =
    rw
      (
        counted-unary r.seq,
        counted-unary r.block,
        counted-unary (kind_tag r.kind),
        get_bool-put_bool r.dethroned,
        get_kind-tag r.kind,
        get_ref-field r.king,
        get_ref-field r.challenger,
        get_ref-field r.new_king,
        get_hash-given r.event_sha256,
      )
      refl

-- A body is signed with itself.
unfoldable pub coded : Codec
unfolding texts untexts fields_of of_fields
coded = record {
  encode = λ r. texts (fields_of r);
  decode = λ body. of_fields (untexts body);
  sign = λ body. body;
  verify = λ body sig. body ==s sig;
  is_signature = λ sig. true;
  sha256 = λ bytes. bytes;
}

pub coded_laws : CodecLaws coded
unfolding coded
coded_laws = record {
  decode_encode = λ r. ap of_fields (untexts-texts (fields_of r)) ∙ of_fields-fields_of r;
  verify_sign = eq_refl;
  sign_form = λ body. refl;
}

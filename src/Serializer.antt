-- ===== src/Serializer.antt =====
-- `MessageSerializer` of src/infrastructure/message_queue/redis_queue.py. `orjson` is a parameter, and
-- so is `str` on what is neither a text, a Boolean, a dictionary nor a list.
use text.Mathlib.Text.{starts_with}
use sse_llm_streaming_servic.Base.{
  ◌≡◌, refl, String, [], ◌∷◌, Bool, true, false, ◌||◌, Option, none, some, if◌then◌else◌,
  Option-cases, arith, inl, inr,
}
use sse_llm_streaming_servic.Base.Dict.{Dict, lookup, insert}

-- A value of a payload; a document is a dictionary or a list.
pub data Value (D N : Type 0) : Type 0 where
  string : String → Value D N
  boolean : Bool → Value D N
  document : D → Value D N
  other : N → Value D N

-- `loads` is `none` where it raises a `ValueError`.
pub record Codec (D N : Type 0) : Type 0 where
  pub dumps : D → String
  pub dumps_bool : Bool → String
  pub loads : String → Option D
  pub str : N → String

-- Whether a text starts like JSON.
unfoldable pub opens : String → Bool
opens v = starts_with v "{" || starts_with v "["

module _ {D N : Type 0} (codec : Codec D N) where
  unfoldable pub encode : Value D N → String
  encode (string s) = s
  encode (boolean b) = codec.dumps_bool b
  encode (document d) = codec.dumps d
  encode (other n) = codec.str n

  unfoldable pub decode : String → Value D N
  decode v =
      if opens v then (elim (codec.loads v) [ none ↦ string v | some d ↦ document d ]) else string v

  unfoldable pub encode_all : Dict (Value D N) → Dict String
  encode_all [] = []
  encode_all ((k, v) ∷ p) = (k, encode v) ∷ encode_all p

  unfoldable pub deserialize : Dict String → Dict (Value D N)
  deserialize [] = []
  deserialize ((k, v) ∷ p) = (k, decode v) ∷ deserialize p

  -- The payload gets a timestamp if it has none.
  unfoldable pub stamped : String → Dict (Value D N) → Dict (Value D N)
  stamped now p = elim (lookup "timestamp" p) [
    | none ↦ insert "timestamp" (string now) p
    | some t ↦ p
  ]

  unfoldable pub serialize : String → Dict (Value D N) → Dict String
  serialize now p = encode_all (stamped now p)

-- What `orjson` promises: a document comes back, and its text starts like one.
pub record IsCodec {D N : Type 0} (codec : Codec D N) : Type 0 where
  pub loads_dumps : (d : D) → codec.loads (codec.dumps d) ≡ some d
  pub dumps_opens : (d : D) → opens (codec.dumps d) ≡ true

-- A value that is a document, or a text that does not start like one.
unfoldable pub IsVerbatim : {D N : Type 0} → Value D N → Type 0
IsVerbatim (string s) = opens s ≡ false
IsVerbatim (boolean b) = ⊥
IsVerbatim (document d) = Unit {0}
IsVerbatim (other n) = ⊥

unfoldable pub AreVerbatim : {D N : Type 0} → Dict (Value D N) → Type 0
AreVerbatim [] = Unit {0}
AreVerbatim ((k, v) ∷ p) = IsVerbatim v × AreVerbatim p

module _ {D N : Type 0} (codec : Codec D N) (law : IsCodec codec) where
  decode-encode : (v : Value D N) → IsVerbatim v → decode codec (encode codec v) ≡ v
  unfolding decode encode IsVerbatim
  decode-encode (string s) h = rw h refl
  decode-encode (boolean b) h = absurd h
  decode-encode (document d) h = rw (law.dumps_opens d, law.loads_dumps d) refl
  decode-encode (other n) h = absurd h

  deserialize-encode_all :
      (p : Dict (Value D N)) → AreVerbatim p → deserialize codec (encode_all codec p) ≡ p
  unfolding deserialize encode_all AreVerbatim
  deserialize-encode_all [] h = refl
  deserialize-encode_all ((k, v) ∷ p) (hv, hp) =
      rw (decode-encode v hv, deserialize-encode_all p hp) refl

  insert-AreVerbatim :
      (k : String) (v : Value D N) (p : Dict (Value D N))
      → IsVerbatim v
      → AreVerbatim p
      → AreVerbatim (insert k v p)
  unfolding insert AreVerbatim
  insert-AreVerbatim k v [] hv hp = (hv, tt)
  insert-AreVerbatim k v ((j, w) ∷ p) hv (hw, hp) = ground (arith, insert-AreVerbatim k v p hv hp)

  stamped-AreVerbatim :
      (now : String) (p : Dict (Value D N))
      → opens now ≡ false
      → AreVerbatim p
      → AreVerbatim (stamped codec now p)
  unfolding stamped IsVerbatim
  stamped-AreVerbatim now p hn hp = elim (Option-cases (lookup "timestamp" p)) [
    | inl e ↦ rw (e, stamped) (insert-AreVerbatim "timestamp" (string now) p hn hp)
    | inr (t, e) ↦ rw (e, stamped) hp
  ]

  -- A payload of documents and of texts that do not start like one is read from the queue as it was
  -- written there, with the time of its production if it had no timestamp.
  pub deserialize-serialize :
      (now : String) (p : Dict (Value D N))
      → opens now ≡ false
      → AreVerbatim p
      → deserialize codec (serialize codec now p) ≡ stamped codec now p
  unfolding serialize
  deserialize-serialize now p hn hp =
      deserialize-encode_all (stamped codec now p) (stamped-AreVerbatim now p hn hp)

-- ===== src/Connection/Handshake/Ends.antt =====
-- connection.cpp: the loops over the answer to the features request come to an end.
use cpp2tnt.Prelude.{
  ℕ, zero, suc, ◌≤◌, ◌<◌, ◌≡◌, refl, ap, ◌∙◌, Bool, true, false, none, some, Option, List, Bytes,
  length, ltb, ◌==◌, if◌then◌else◌, set, arith, pos_part, ℤ,
}
use cpp2tnt.Outcome.{Result, undefined}
use cpp2tnt.Msgpuck.{Msgpuck}
use cpp2tnt.Iproto.{ProtoId}
use cpp2tnt.Iproto.Codes.{BodyField, body_field_code}
use cpp2tnt.MpReader.{Reader, has_next, if_next, skip, after, Read, value, failed, ◌>>=◌}
use cpp2tnt.MpReader
use cpp2tnt.MpReader.RoundTrip.{uint64}
use cpp2tnt.MpReader.Values.{IntType, read_int, read_text, from_inner}
use cpp2tnt.MpReader.Containers.{read_array, read_map}
use cpp2tnt.MpReader.Containers.Begins.{read_array_less}
use cpp2tnt.MpReader.Progress.{
  Moves, left, OnValue, OnValue-bind, OnValue-after, OnValue-if, skip_less, read_int_less,
  read_text_less,
}
use cpp2tnt.Connection.Handshake.{
  read_uint, uint32, uint8, read_features, read_feature_list, read_field, read_fields, read_proto,
}

bind_same :
    {A B : Type 0} (P : A → Reader → Type 0) (x : Read A) (k k' : A → Reader → Read B)
    → OnValue P x
    → ((a : A) (r : Reader) → P a r → k a r ≡ k' a r)
    → (x >>= k) ≡ (x >>= k')
bind_same P (value a r) k k' h f = f a r h
bind_same P (failed e r) k k' h f = refl
bind_same P MpReader.stuck k k' h f = refl

module _ (m : Msgpuck) (moves : Moves m) (mem : Bytes) where
  read_uint_less :
      (t : IntType) (r : Reader)
      → OnValue (λ a r'. left mem r'.position < left mem r.position) (read_uint m t mem r)
  read_uint_less t r =
      OnValue-bind (λ (a : ℤ) r'. left mem r'.position < left mem r.position)
        (λ a r'. left mem r'.position < left mem r.position) (read_int m t mem r)
        (λ z. value (pos_part z)) (read_int_less m moves mem t r) (λ a r' h. h)

  -- Neither the fuel nor what is done without it matters once there is more of it than bytes before the
  -- reader.
  read_features_enough :
      (spent spent' : Reader → Result Reader) (n k : ℕ) (bits : List Bool) (r : Reader)
      → left mem r.position < n
      → left mem r.position < k
      → read_features spent n m mem bits r ≡ read_features spent' k m mem bits r
  unfolding read_features
  read_features_enough spent spent' zero k bits r h g = absurd (omega arith)
  read_features_enough spent spent' (suc n) zero bits r h g = absurd (omega arith)
  read_features_enough spent spent' (suc n) (suc k) bits r h g =
      ap (if_next r (has_next false r) (value bits r)) (
        bind_same (λ f r'. left mem r'.position < left mem r.position) (read_uint m uint8 mem r)
          (λ f. read_features spent n m mem (if ltb f (length bits) then set bits f true else bits))
          (λ f.
            read_features spent' k m mem (if ltb f (length bits) then set bits f true else bits))
          (read_uint_less uint8 r)
          (λ f r' less.
            read_features_enough spent spent' n k
              (if ltb f (length bits) then set bits f true else bits) r' (omega arith)
              (omega arith)))

  read_feature_list_enough :
      (spent spent' : Reader → Result Reader) (n k : ℕ) (proto : ProtoId) (r : Reader)
      → left mem r.position < n
      → left mem r.position < k
      → read_feature_list spent n m mem proto r ≡ read_feature_list spent' k m mem proto r
  unfolding read_feature_list
  read_feature_list_enough spent spent' n k proto r h g =
      let done = λ (bits : List Bool). value (record proto { features = bits }) in
      bind_same
        (λ ff r'.
          (left mem ff.position ≤ left mem r.position)
          × (left mem r'.position ≤ left mem r.position))
        (read_array m mem r)
        (λ ff r'. from_inner (read_features spent n m mem proto.features ff) r' >>= done)
        (λ ff r'. from_inner (read_features spent' k m mem proto.features ff) r' >>= done)
        (read_array_less m mem moves r)
        (λ ff r' (less, less').
          ap (λ x. from_inner x r' >>= done)
            (read_features_enough spent spent' n k proto.features ff (omega arith) (omega arith)))

  read_field_enough :
      (spent spent' : Reader → Result Reader) (n k : ℕ) (proto : ProtoId) (key : ℕ) (r : Reader)
      → left mem r.position < n
      → left mem r.position < k
      → read_field spent n m mem proto key r ≡ read_field spent' k m mem proto key r
  unfolding read_field
  read_field_enough spent spent' n k proto key r h g =
      ap
        (λ (listed : Read ProtoId).
          if key == body_field_code BodyField.version
          then read_uint m uint64 mem r >>= (λ v. value (record proto { version = v }))
          else if key == body_field_code BodyField.auth_type
          then read_text m mem (length proto.auth) r >>= (λ a. value (record proto { auth = a }))
          else if key == body_field_code BodyField.features
          then listed
          else after (skip m mem r) (value proto))
        (read_feature_list_enough spent spent' n k proto r h g)

  from_inner_less :
      {A : Type 0} (Q : Reader → Type 0) (x : Read A) (r : Reader)
      → Q r
      → OnValue (λ a r'. Q r') (from_inner x r)
  from_inner_less Q (value a r') r h = h
  from_inner_less Q (failed e r') r h = tt
  from_inner_less Q MpReader.stuck r h = tt

  read_feature_list_less :
      (spent : Reader → Result Reader) (n : ℕ) (proto : ProtoId) (r : Reader)
      → OnValue
          (λ a r'. left mem r'.position ≤ left mem r.position)
          (read_feature_list spent n m mem proto r)
  unfolding read_feature_list
  read_feature_list_less spent n proto r =
      let Q = λ (r' : Reader). left mem r'.position ≤ left mem r.position in
      let done = λ (bits : List Bool). value (record proto { features = bits }) in
      OnValue-bind
        (λ ff r'.
          (left mem ff.position ≤ left mem r.position)
          × (left mem r'.position ≤ left mem r.position))
        (λ a r'. Q r') (read_array m mem r)
        (λ ff r'. from_inner (read_features spent n m mem proto.features ff) r' >>= done)
        (read_array_less m mem moves r)
        (λ ff r' (less, less').
          OnValue-bind (λ a r''. Q r'') (λ a r''. Q r'')
            (from_inner (read_features spent n m mem proto.features ff) r') done
            (from_inner_less Q (read_features spent n m mem proto.features ff) r' less')
            (λ a r'' q. q))

  read_field_less :
      (spent : Reader → Result Reader) (n : ℕ) (proto : ProtoId) (key : ℕ) (r : Reader)
      → OnValue
          (λ a r'. left mem r'.position ≤ left mem r.position)
          (read_field spent n m mem proto key r)
  unfolding read_field
  read_field_less spent n proto key r =
      let Q = λ (a : ProtoId) (r' : Reader). left mem r'.position ≤ left mem r.position in
      let version = read_uint m uint64 mem r >>= λ v. value (record proto { version = v }) in
      let auth = read_text m mem (length proto.auth) r >>= λ a. value (record proto { auth = a }) in
      let listed = read_feature_list spent n m mem proto r in
      let rest = after (skip m mem r) (value proto) in
      OnValue-if Q (key == body_field_code BodyField.version) version
        (if key == body_field_code BodyField.auth_type
          then auth
          else if key == body_field_code BodyField.features
          then listed
          else rest)
        (OnValue-bind (λ a r'. left mem r'.position < left mem r.position) Q
          (read_uint m uint64 mem r) (λ v. value (record proto { version = v }))
          (read_uint_less uint64 r) (λ a r' h. omega arith))
        (OnValue-if Q (key == body_field_code BodyField.auth_type) auth
          (if key == body_field_code BodyField.features then listed else rest)
          (OnValue-bind (λ a r'. left mem r'.position ≤ left mem r.position) Q
            (read_text m mem (length proto.auth) r) (λ a. value (record proto { auth = a }))
            (read_text_less m moves mem (length proto.auth) r) (λ a r' h. h))
          (OnValue-if Q (key == body_field_code BodyField.features) listed rest
            (read_feature_list_less spent n proto r)
            (OnValue-after (λ r'. left mem r'.position < left mem r.position) Q (skip m mem r)
              (value proto) (skip_less m moves mem r) (λ r' h. omega arith))))

  pub read_fields_enough :
      (spent spent' : Reader → Result Reader) (n k : ℕ) (proto : ProtoId) (r : Reader)
      → left mem r.position < n
      → left mem r.position < k
      → read_fields spent n m mem proto r ≡ read_fields spent' k m mem proto r
  unfolding read_fields
  read_fields_enough spent spent' zero k proto r h g = absurd (omega arith)
  read_fields_enough spent spent' (suc n) zero proto r h g = absurd (omega arith)
  read_fields_enough spent spent' (suc n) (suc k) proto r h g =
      ap (if_next r (has_next false r) (value proto r)) (
        bind_same (λ key r'. left mem r'.position < left mem r.position) (read_uint m uint32 mem r)
          (λ key body'.
            read_field spent n m mem proto key body' >>= λ proto'. read_fields spent n m mem proto')
          (λ key body'. read_field spent' k m mem proto key body' >>= λ proto'.
            read_fields spent' k m mem proto')
          (read_uint_less uint32 r)
          (λ key r' less.
            ap (λ x. x >>= λ proto'. read_fields spent n m mem proto')
              (read_field_enough spent spent' n k proto key r' (omega arith) (omega arith))
            ∙ bind_same (λ proto' r''. left mem r''.position ≤ left mem r'.position)
                (read_field spent' k m mem proto key r')
                (λ proto'. read_fields spent n m mem proto')
                (λ proto'. read_fields spent' k m mem proto')
                (read_field_less spent' k proto key r')
                (λ proto' r'' less'.
                  read_fields_enough spent spent' n k proto' r'' (omega arith) (omega arith))))

  left_most : (o : Option ℕ) → left mem o ≤ length mem
  left_most none = omega arith
  left_most (some p) = omega arith

  -- The loops over the answer to the features request come to an end whatever is in it: a round for each
  -- byte of the response and one more are enough, since neither more rounds nor what would be done
  -- without any fuel (`spent`) make a difference. It wants a library that moves over a byte at least.
  pub read_proto_ends :
      (spent : Reader → Result Reader) (fuel : ℕ) (proto : ProtoId) (r : Reader)
      → length mem < fuel
      → read_proto m mem proto r
        ≡ (read_map m mem r >>= λ body r'. from_inner (read_fields spent fuel m mem proto body) r')
  unfolding read_proto
  read_proto_ends spent fuel proto r h =
      bind_same (λ body r'. Unit {0}) (read_map m mem r)
        (λ body r'.
          from_inner (read_fields (λ r. undefined) (suc (length mem)) m mem proto body) r')
        (λ body r'. from_inner (read_fields spent fuel m mem proto body) r')
        (any (read_map m mem r))
        (λ body r' t.
          ap (λ x. from_inner x r')
            (read_fields_enough (λ r. undefined) spent (suc (length mem)) fuel proto body
              (omega (arith, left_most body.position)) (omega (arith, left_most body.position))))
    where
      any : (x : Read Reader) → OnValue (λ body r'. Unit {0}) x
      any (value a r') = tt
      any (failed e r') = tt
      any MpReader.stuck = tt

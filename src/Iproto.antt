-- ===== src/Iproto.antt =====
-- iproto.h, iproto.cpp: the codes of the protocol, and the features that a side announces.
pub mod Codes
pub mod Features
use cpp2tnt.Prelude.{
  ℕ, zero, suc, ◌+◌, Bool, true, false, ◌&&◌, Option, none, some, List, [], ◌∷◌, Bytes, get_elem?,
  set, replicate, length, ltb, if◌then◌else◌,
}

-- `feature::invalid`, the number of the features that are known
abbrev pub invalid_feature : ℕ
invalid_feature = 5

-- `std::bitset<32>::size()`
abbrev pub features_size : ℕ
features_size = 32

-- struct proto_id; `features` is the bitset, bit 0 first.
pub record ProtoId : Type 0 where
  pub version : ℕ
  pub auth : Bytes
  pub features : List Bool

abbrev no_features : List Bool
no_features = replicate features_size false

-- The loop of the constructor: a feature that the bitset has no bit for is skipped.
set_features : List ℕ → List Bool → List Bool
set_features [] bits = bits
set_features (f ∷ fs) bits = set_features fs (if ltb f (length bits) then set bits f true else bits)

unfoldable pub create : List ℕ → ℕ → Bytes → ProtoId
unfolding set_features
create fs version auth = record {
  version = version;
  auth = auth;
  features = set_features fs no_features;
}

-- `proto_id{}`
unfoldable pub empty : ProtoId
unfolding create
empty = create [] 0 []

-- `none` is the `std::out_of_range` of `bitset::test`.
unfoldable pub has_feature : ProtoId → ℕ → Option Bool
has_feature p f = get_elem? p.features f

-- The loop of `list_features` over the bits from `i` on.
list_from : ℕ → List Bool → List ℕ
list_from i [] = []
list_from i (bit ∷ bits) =
    let rest = list_from (i + 1) bits in if bit && ltb i invalid_feature then i ∷ rest else rest

unfoldable pub list_features : ProtoId → List ℕ
unfolding list_from
list_features p = list_from 0 p.features

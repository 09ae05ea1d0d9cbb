-- ===== src/Crypto/KeyStore.antt =====
-- include/meshcore/crypto/key_manager.h and src/crypto/key_manager.cpp: the keys by channel and node.
pub mod Lookup
use meshcore_cpp_decoder.Common.{
  Bool, true, false, ◌&&◌, Option, none, some, List, [], ◌∷◌, ◌++◌, map, ◌==◌, if◌then◌else◌, Text,
  text, ok, throws, fault,
}
use meshcore_cpp_decoder.Hex.{to_lower, to_upper}
use meshcore_cpp_decoder.Crypto.OpenSsl.{OpenSsl}
use meshcore_cpp_decoder.Crypto.Channel.{calculate_channel_hash}

-- Equality of strings.
unfoldable pub text_eq : Text → Text → Bool
text_eq [] [] = true
text_eq [] (d ∷ t) = false
text_eq (c ∷ s) [] = false
text_eq (c ∷ s) (d ∷ t) = c == d && text_eq s t

-- A `std::map` from strings, as an association list.
module _ {V : Type 0} where
  unfoldable pub find : Text → List (Text × V) → Option V
  unfolding text_eq
  find k [] = none
  find k ((j, v) ∷ m) = if text_eq j k then some v else find k m

  unfoldable pub put : Text → V → List (Text × V) → List (Text × V)
  unfolding text_eq
  put k v [] = (k, v) ∷ []
  put k v ((j, w) ∷ m) = if text_eq j k then (k, v) ∷ m else (j, w) ∷ put k v m

pub record MeshCoreKeyStore : Type 0 where
  pub channel_hash_to_keys : List (Text × List Text)
  pub node_keys : List (Text × Text)

unfoldable pub no_keys : MeshCoreKeyStore
no_keys = record { channel_hash_to_keys = []; node_keys = [] }

-- The keys that a lookup gives: none for a missing hash.
unfoldable pub found_keys : Option (List Text) → List Text
found_keys none = []
found_keys (some ks) = ks

-- `it != map.end()`
unfoldable pub is_found {ℓ} : {V : Type ℓ} → Option V → Bool
is_found none = false
is_found (some v) = true

-- `channelHashToKeys_[hash].push_back(key)`
unfoldable pub push_key : Text → Text → MeshCoreKeyStore → MeshCoreKeyStore
push_key hash key s =
    let old = found_keys (find hash s.channel_hash_to_keys) in
    record s { channel_hash_to_keys = put hash (old ++ (key ∷ [])) s.channel_hash_to_keys }

-- `getChannelKeys`
unfoldable pub get_channel_keys : MeshCoreKeyStore → Text → List Text
get_channel_keys s channel_hash =
    found_keys (find (map to_lower channel_hash) s.channel_hash_to_keys)

-- `hasChannelKey`
unfoldable pub has_channel_key : MeshCoreKeyStore → Text → Bool
has_channel_key s channel_hash = is_found (find (map to_lower channel_hash) s.channel_hash_to_keys)

-- `addNodeKey`
unfoldable pub add_node_key : Text → Text → MeshCoreKeyStore → MeshCoreKeyStore
add_node_key public_key private_key s = record s {
  node_keys = put (map to_upper public_key) private_key s.node_keys;
}

-- `hasNodeKey`
unfoldable pub has_node_key : MeshCoreKeyStore → Text → Bool
has_node_key s public_key = is_found (find (map to_upper public_key) s.node_keys)

module _ (ssl : OpenSsl) where
  -- One round of `addChannelSecrets`: a key that is no hexadecimal text is skipped.
  unfoldable pub add_channel_secret : Text → MeshCoreKeyStore → MeshCoreKeyStore
  add_channel_secret secret_key s = elim (calculate_channel_hash ssl secret_key) [
    | ok channel_hash ↦ push_key (map to_lower channel_hash) secret_key s
    | throws what ↦ s
    | fault ↦ s
  ]

  -- `addChannelSecrets`, and the constructor, which calls it on a new store.
  unfoldable pub add_channel_secrets : List Text → MeshCoreKeyStore → MeshCoreKeyStore
  add_channel_secrets [] s = s
  add_channel_secrets (k ∷ ks) s = add_channel_secrets ks (add_channel_secret k s)

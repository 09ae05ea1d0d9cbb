-- ===== src/Crypto/KeyStore/Lookup.antt =====
-- What the key store answers after keys have been added.
use meshcore_cpp_decoder.Common.{
  ◌≡◌, refl, sym, ◌∙◌, inl, inr, Bool, true, false, ◌||◌, some, List, [], ◌∷◌, ◌++◌, append-nil,
  append_assoc, map, arith, if◌then◌else◌, Bool-cases, All, Text, Outcome, ok, throws, fault,
}
use meshcore_cpp_decoder.Hex.{to_lower, to_upper}
use meshcore_cpp_decoder.Crypto.OpenSsl.{OpenSsl}
use meshcore_cpp_decoder.Crypto.Channel.{calculate_channel_hash}
use meshcore_cpp_decoder.Crypto.KeyStore.{
  found_keys, is_found, text_eq, find, put, MeshCoreKeyStore, push_key, get_channel_keys,
  has_node_key, add_node_key, add_channel_secret, add_channel_secrets,
}

pub text_eq_refl : (s : Text) → text_eq s s ≡ true
unfolding text_eq
text_eq_refl [] = refl
text_eq_refl (c ∷ s) = ground (arith, text_eq_refl s)

pub text_eq_sound : (s t : Text) → text_eq s t ≡ true → s ≡ t
unfolding text_eq
text_eq_sound [] [] h = refl
text_eq_sound [] (d ∷ t) h = cc
text_eq_sound (c ∷ s) [] h = cc
text_eq_sound (c ∷ s) (d ∷ t) h = ground (arith, text_eq_sound s t)

text_eq-of_eq : (s t : Text) → s ≡ t → text_eq s t ≡ true
text_eq-of_eq s t e = rw e (text_eq_refl t)

module _ {V : Type 0} where
  pub find-put :
      (k j : Text) (v : V) (m : List (Text × V))
      → find j (put k v m) ≡ (if text_eq k j then some v else find j m)
  unfolding find put
  find-put k j v [] = refl
  find-put k j v ((i, w) ∷ m) = ground (
    arith,
    text_eq_sound i k,
    text_eq_sound i j,
    text_eq_sound k j,
    text_eq-of_eq i j,
    text_eq-of_eq k j,
    text_eq-of_eq i k,
    find-put k j v m,
  )

  pub find-All {κ} :
      (P : V → Type κ) (k : Text) (m : List (Text × V)) (v : V)
      → All (λ e. P e.1) m
      → find k m ≡ some v
      → P v
  unfolding find
  find-All P k [] v h e = cc
  find-All P k ((j, w) ∷ m) v (p, h) e = elim (Bool-cases (text_eq j k)) [
    | inl here ↦ let e' : w ≡ v = ground arith in rw (← e') p
    | inr there ↦ find-All P k m v h (rw there at e)
  ]

get_channel_keys-push_key :
    (hash key q : Text) (s : MeshCoreKeyStore)
    → get_channel_keys (push_key hash key s) q ≡ (
        if text_eq hash (map to_lower q)
        then get_channel_keys s q ++ (key ∷ [])
        else get_channel_keys s q)
unfolding get_channel_keys push_key
get_channel_keys-push_key hash key q s =
    let q' : Text = map to_lower q in
    elim (Bool-cases (text_eq hash q')) [
      | inl same ↦ rw (find-put, same, text_eq_sound hash q' same) (unfold found_keys in refl)
      | inr other ↦ rw (find-put, other)
    ]

-- After a node key has been added to any store, the store has a key for that node in either case of
-- the letters, and for the nodes it had one for.
pub has_node_key-add_node_key :
    (public_key private_key q : Text) (s : MeshCoreKeyStore)
    → has_node_key (add_node_key public_key private_key s) q
      ≡ (text_eq (map to_upper public_key) (map to_upper q) || has_node_key s q)
unfolding has_node_key add_node_key
has_node_key-add_node_key public_key private_key q s =
    elim (Bool-cases (text_eq (map to_upper public_key) (map to_upper q))) [
      | inl same ↦ rw (find-put, same) (unfold is_found in refl)
      | inr other ↦ rw (find-put, other)
    ]

-- Whether a channel hash that was computed is `q`, in either case.
unfoldable pub is_hash : Text → Outcome Text → Bool
is_hash q (ok h) = text_eq (map to_lower h) (map to_lower q)
is_hash q (throws e) = false
is_hash q fault = false

module _ (ssl : OpenSsl) where
  -- Whether a key stands under the channel hash `q`.
  unfoldable pub matches : Text → Text → Bool
  matches q key = is_hash q (calculate_channel_hash ssl key)

  -- Those of the keys that stand under a channel hash, in their order.
  unfoldable pub keys_for : Text → List Text → List Text
  keys_for q [] = []
  keys_for q (k ∷ ks) = if matches q k then k ∷ keys_for q ks else keys_for q ks

  add_one :
      (k q : Text) (s : MeshCoreKeyStore)
      → get_channel_keys (add_channel_secret ssl k s) q
        ≡ (if matches q k then get_channel_keys s q ++ (k ∷ []) else get_channel_keys s q)
  unfolding add_channel_secret matches is_hash
  add_one k q s = from (calculate_channel_hash ssl k)
    where
      from :
          (o : Outcome Text)
          → get_channel_keys
              (elim o [ ok h ↦ push_key (map to_lower h) k s | throws e ↦ s | fault ↦ s ])
              q
            ≡ (if is_hash q o then get_channel_keys s q ++ (k ∷ []) else get_channel_keys s q)
      from (ok h) = get_channel_keys-push_key (map to_lower h) k q s
      from (throws e) = refl
      from fault = refl

  -- After keys have been added to any store, the keys under a channel hash are those that were there
  -- and, behind them in the order of the call, those of the new keys whose hash is that one in either
  -- case. Keys that are no hexadecimal text are left out.
  pub get_channel_keys-add_channel_secrets :
      (ks : List Text) (q : Text) (s : MeshCoreKeyStore)
      → get_channel_keys (add_channel_secrets ssl ks s) q ≡ get_channel_keys s q ++ keys_for q ks
  unfolding add_channel_secrets keys_for
  get_channel_keys-add_channel_secrets [] q s = sym (append-nil (get_channel_keys s q))
  get_channel_keys-add_channel_secrets (k ∷ ks) q s =
      get_channel_keys-add_channel_secrets ks q (add_channel_secret ssl k s)
      ∙ (elim (Bool-cases (matches q k)) [
        | inl here ↦
            rw (add_one k q s, here) (append_assoc (get_channel_keys s q) (k ∷ []) (keys_for q ks))
        | inr other ↦ rw (add_one k q s, other)
      ])

-- ===== src/Storage/Mpt/Roundtrip.antt =====
-- The trie as a map from 32-byte keys to values.
use primus_project.Base.{
  ◌*◌, ◌<◌, ◌≡◌, ◌∙◌, refl, ap, subst, Bool, true, false, Option, some, [], ◌∷◌, arith, length,
  if◌then◌else◌,
}
use primus_project.Base.Outcome.{Result, ok, err}
use primus_project.Base.Ord.{same, same_iff, bytes_ord}
use primus_project.Machine.Word.{Bytes}
use primus_project.Storage.Mpt.{Hash32, MptStore, TrieError, key_to_nibbles}
use primus_project.Storage.Mpt.Trie.{get, insert, fuel_for}
use primus_project.Storage.Mpt.Valid.{AllNibbles, IsPath, Contents, IsLawful, Represents}
use primus_project.Storage.Mpt.Parting.{update, Stores}
use primus_project.Storage.Mpt.Lookup.{get_recursive-Represents}
use primus_project.Storage.Mpt.Insert.{insert_recursive-Stores}

abbrev pub AllBytes : Bytes → Type 0
AllBytes [] = Unit
AllBytes (x ∷ k) = (x < 256) × AllBytes k

-- `[u8; 32]`
abbrev pub IsKey : Bytes → Type 0
IsKey key = (length key ≡ 32) × AllBytes key

length-key_to_nibbles : (key : Bytes) → length (key_to_nibbles key) ≡ 2 * length key
unfolding key_to_nibbles
length-key_to_nibbles [] = refl
length-key_to_nibbles (x ∷ key) = omega (arith, length-key_to_nibbles key)

key_to_nibbles-AllNibbles : (key : Bytes) → AllBytes key → AllNibbles (key_to_nibbles key)
unfolding key_to_nibbles
key_to_nibbles-AllNibbles [] p = tt
key_to_nibbles-AllNibbles (x ∷ key) p =
    (omega (arith, p.0), (omega arith, key_to_nibbles-AllNibbles key p.1))

pub key_to_nibbles-IsPath : (key : Bytes) → IsKey key → IsPath 64 (key_to_nibbles key)
key_to_nibbles-IsPath key p =
    (omega (arith, length-key_to_nibbles key, p.0), key_to_nibbles-AllNibbles key p.1)

key_to_nibbles_inj : (j k : Bytes) → key_to_nibbles j ≡ key_to_nibbles k → j ≡ k
unfolding key_to_nibbles
key_to_nibbles_inj [] [] e = refl
key_to_nibbles_inj [] (y ∷ k) e = cc
key_to_nibbles_inj (x ∷ j) [] e = cc
key_to_nibbles_inj (x ∷ j) (y ∷ k) e = ground (arith, key_to_nibbles_inj j k)

same-key_to_nibbles : (j k : Bytes) → same (key_to_nibbles j) (key_to_nibbles k) ≡ same j k
same-key_to_nibbles j k = ground (
  arith,
  same_iff (key_to_nibbles j) (key_to_nibbles k),
  same_iff j k,
  key_to_nibbles_inj j k,
  λ (e : j ≡ k). ap key_to_nibbles e,
)

if-ok {ℓ κ} :
    {E : Type ℓ} {A : Type κ} (b : Bool) (x y : A)
    → ◌≡◌ {A = Result E A} (ok (if b then x else y)) (if b then ok x else ok y)
if-ok true x y = refl
if-ok false x y = refl

module _ {S : Type 0} (store : MptStore S) {Sound : S → Type 0} where
  get-Represents :
      (s : S) (sound : Sound s) (root : Option Hash32) (f : Contents) (key : Bytes)
      → Represents store Sound s root 64 f
      → IsKey key
      → get store root key s ≡ ok (f (key_to_nibbles key))
  unfolding get
  get-Represents s sound root f key r is_key =
      let path = key_to_nibbles-IsPath key is_key in
      get_recursive-Represents store Sound s sound (fuel_for store (key_to_nibbles key))
        (key_to_nibbles key) r path (omega (arith, path.0))

  insert-Stores :
      (lawful : IsLawful store Sound) (s : S) (sound : Sound s) (root : Option Hash32)
      (f : Contents) (key value : Bytes)
      → Represents store Sound s root 64 f
      → IsKey key
      → Stores store Sound s
          (insert store root key value s)
          64
          (update (key_to_nibbles key) value f)
  unfolding insert
  insert-Stores lawful s sound root f key value r is_key =
      let path = key_to_nibbles-IsPath key is_key in
      insert_recursive-Stores store lawful sound (fuel_for store (key_to_nibbles key))
        (key_to_nibbles key) value r path (omega (arith, path.0))

-- The store that a call leaves.
abbrev pub store_after : {S : Type 0} → Result TrieError (Hash32 × S) → S → S
store_after (err _) s = s
store_after (ok (_, s')) s = s'

-- In a trie for 32-byte keys, `insert` succeeds, and leaves such a trie in which `get` finds the
-- value at its key, and at every other key what it found before. This is for a store that keeps what
-- is put into it while it is sound, and that is sound before and after the insertion.
pub insert-get :
    {S : Type 0} (store : MptStore S) (Sound : S → Type 0) (lawful : IsLawful store Sound) (s : S)
    (root : Option Hash32) (f : Contents) (key other value : Bytes)
    → Represents store Sound s root 64 f
    → IsKey key
    → IsKey other
    → Sound s
    → Sound (store_after (insert store root key value s) s)
    → (h : Hash32) × (s' : S) × (insert store root key value s ≡ ok (h, s'))
      × Represents store Sound s' (some h) 64 (update (key_to_nibbles key) value f)
      × (get store (some h) other s'
          ≡ (if same key other then ok (some value) else get store root other s))
insert-get store Sound lawful s root f key other value r is_key is_other sound sound_after =
    let done = insert-Stores store lawful s sound root f key value r is_key in
    let sound' : Sound done.after = subst (λ t. Sound (store_after t s)) done.ran sound_after in
    let before = get-Represents store s sound root f other r is_other in
    let after =
      get-Represents store done.after sound' (some done.root) (update (key_to_nibbles key) value f)
        other done.represents is_other in
    (
      done.root,
      done.after,
      done.ran,
      done.represents,
      after
          ∙ rw (same-key_to_nibbles key other, before)
              (if-ok (same key other) (some value) (f (key_to_nibbles other))),
    )

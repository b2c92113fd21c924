-- ===== src/Worm/Binding.antt =====
-- The chain hash binds the whole history: two histories with one head hash are the same history,
-- or two texts that were hashed for them have one SHA-256 sum.
use mathlib.Core.List.{List, [], ◌∷◌, Memᴰ}
use rainlogs.Prelude.{
  ◌≡◌, refl, ◌≢◌, ◌⊎◌, inl, inr, ◌++◌, arith, length, Bool-cases, Bytes, bytes_eq, bytes_eq_iff,
  All,
}
use rainlogs.Hex.{encode}
use rainlogs.Hex.RoundTrip.{IsByte, decode-encode, length-encode}
use rainlogs.Worm.{chain_hash}

-- Two different texts of the two lists with one sum.
abbrev pub Collision : (Bytes → Bytes) → List Bytes → List Bytes → Type 0
Collision sha256 xs ys =
    (x : Bytes) × (y : Bytes) × Memᴰ x xs × Memᴰ y ys × (x ≢ y) × (sha256 x ≡ sha256 y)

abbrev Differ : (Bytes → Bytes) → Bytes → Bytes → Type 0
Differ sha256 x y = (x ≢ y) × (sha256 x ≡ sha256 y)

append_split : (a b c d : Bytes) → length a ≡ length b → a ++ c ≡ b ++ d → (a ≡ b) × (c ≡ d)
append_split [] [] c d h e = (refl, e)
append_split [] (y ∷ b) c d h e = absurd (omega arith)
append_split (x ∷ a) [] c d h e = absurd (omega arith)
append_split (x ∷ a) (y ∷ b) c d h e =
    let rest = append_split a b c d (omega arith) (ground arith) in ground arith

encode_injective : (x y : Bytes) → All IsByte x → All IsByte y → encode x ≡ encode y → x ≡ y
encode_injective x y hx hy e = cc (decode-encode x hx, decode-encode y hy)

module _ (sha256 : Bytes → Bytes) (bytes : (x : Bytes) → All IsByte (sha256 x)) where
  -- Equal sums come from equal inputs, or from different ones with one sum.
  hex_sum_binds :
      (x y : Bytes) → encode (sha256 x) ≡ encode (sha256 y) → (x ≡ y) ⊎ Differ sha256 x y
  hex_sum_binds x y e = elim (Bool-cases (bytes_eq x y)) [
    | inl same ↦ inl ((bytes_eq_iff x y).0 same)
    | inr differ ↦ inr (
      (λ p. cc (differ, (bytes_eq_iff x y).1 p)),
      encode_injective (sha256 x) (sha256 y) (bytes x) (bytes y) e,
    )
  ]

  -- One link determines its three parts, where the two links' first two parts are as long.
  chain_hash_binds :
      (p q o u j k : Bytes)
      → length p ≡ length q
      → length o ≡ length u
      → chain_hash sha256 p o j ≡ chain_hash sha256 q u k
      → ((p ≡ q) × (o ≡ u) × (j ≡ k)) ⊎ Differ sha256 (p ++ (o ++ j)) (q ++ (u ++ k))
  unfolding chain_hash
  chain_hash_binds p q o u j k lp lo e = elim (hex_sum_binds _ _ e) [
    | inr c ↦ inr c
    | inl same ↦
        let (pq, rest) = append_split p q (o ++ j) (u ++ k) lp same in
        let (ou, jk) = append_split o u j k lo rest in inl (pq, ou, jk)
  ]

pub record Link : Type 0 where
  pub object_sha256 : Bytes
  pub job_id : Bytes

-- The head of the chain after the links, oldest first, when each link chains to the one before.
unfoldable pub head_after : (Bytes → Bytes) → Bytes → List Link → Bytes
head_after sha256 start [] = start
head_after sha256 start (l ∷ ls) =
    head_after sha256 (chain_hash sha256 start l.object_sha256 l.job_id) ls

-- The texts that are hashed on the way: the head before, the object's hash and the job's identifier.
unfoldable pub hashed : (Bytes → Bytes) → Bytes → List Link → List Bytes
hashed sha256 start [] = []
hashed sha256 start (l ∷ ls) =
    (start ++ (l.object_sha256 ++ l.job_id))
    ∷ hashed sha256 (chain_hash sha256 start l.object_sha256 l.job_id) ls

-- The object hashes of both histories are as long, link by link.
abbrev pub SameShape : List Link → List Link → Type 0
SameShape [] [] = Unit {0}
SameShape (l ∷ ls) (k ∷ ks) = (length l.object_sha256 ≡ length k.object_sha256) × SameShape ls ks
SameShape _ _ = ⊥

module _ (sha256 : Bytes → Bytes) (bytes : (x : Bytes) → All IsByte (sha256 x))
    (width : (x y : Bytes) → length (sha256 x) ≡ length (sha256 y)) where
  chain_hash_width :
      (p o j q u k : Bytes) → length (chain_hash sha256 p o j) ≡ length (chain_hash sha256 q u k)
  unfolding chain_hash
  chain_hash_width p o j q u k = omega (
    arith,
    length-encode (sha256 (p ++ (o ++ j))),
    length-encode (sha256 (q ++ (u ++ k))),
    width (p ++ (o ++ j)) (q ++ (u ++ k)),
  )

  -- For a hash function whose sums are bytes and all as long, two histories of one shape, from starts of
  -- one length, that reach the same head hash are equal, with their starts, or among the texts that were
  -- hashed for them are two different ones with one sum.
  pub head_after_binds :
      (p q : Bytes) (ls ks : List Link)
      → length p ≡ length q
      → SameShape ls ks
      → head_after sha256 p ls ≡ head_after sha256 q ks
      → ((p ≡ q) × (ls ≡ ks)) ⊎ Collision sha256 (hashed sha256 p ls) (hashed sha256 q ks)
  unfolding head_after hashed
  head_after_binds p q [] [] lp s e = inl (e, refl)
  head_after_binds p q [] (k ∷ ks) lp s e = absurd s
  head_after_binds p q (l ∷ ls) [] lp s e = absurd s
  head_after_binds p q (l ∷ ls) (k ∷ ks) lp (w, s) e =
      elim (head_after_binds (chain_hash sha256 p l.object_sha256 l.job_id)
        (chain_hash sha256 q k.object_sha256 k.job_id) ls ks
        (chain_hash_width p l.object_sha256 l.job_id q k.object_sha256 k.job_id) s e) [
          | inr (x, y, there, here, differ, one_sum) ↦
              inr (x, y, Memᴰ.tail there, Memᴰ.tail here, differ, one_sum)
          | inl (heads, rest) ↦
              elim (chain_hash_binds sha256 bytes p q l.object_sha256 k.object_sha256 l.job_id
                k.job_id lp w heads) [
                  | inr differ ↦ inr (_, _, Memᴰ.head refl, Memᴰ.head refl, differ.0, differ.1)
                  | inl (pq, same, ids) ↦ inl (pq, ground arith)
                ]
        ]

-- ===== src/Sphinx/Keystream.antt =====
-- Keystreams of src/core/sphinx/crypto.rs applied to byte arrays.
use mixnet.Base.{
  ℕ, zero, suc, ◌≤◌, ◌≡◌, refl, sym, ap, Bytes, [], ◌∷◌, ◌++◌, length, take, drop, replicate,
  bit_xor, bit_xor-bit_xor, bit_xor_zero, arith,
}
use mixnet.Sphinx.Crypto.{apply_keystream}

pub length-apply_keystream : (ds ks : Bytes) → length (apply_keystream ds ks) ≡ length ds
unfolding apply_keystream
length-apply_keystream [] ks = refl
length-apply_keystream (d ∷ ds) [] = refl
length-apply_keystream (d ∷ ds) (k ∷ ks) = ap suc (length-apply_keystream ds ks)

pub apply_keystream_empty : (ds : Bytes) → apply_keystream ds [] ≡ ds
unfolding apply_keystream
apply_keystream_empty [] = refl
apply_keystream_empty (d ∷ ds) = refl

pub apply_keystream-append :
    (xs ys ks : Bytes)
    → apply_keystream (xs ++ ys) ks
      ≡ apply_keystream xs ks ++ apply_keystream ys (drop (length xs) ks)
unfolding apply_keystream drop
apply_keystream-append [] ys ks = refl
apply_keystream-append (x ∷ xs) ys [] = ap (λ zs. x ∷ (xs ++ zs)) (sym (apply_keystream_empty ys))
apply_keystream-append (x ∷ xs) ys (k ∷ ks) =
    ap (◌∷◌ (bit_xor x k)) (apply_keystream-append xs ys ks)

pub apply_keystream-take :
    (n : ℕ) (xs ks : Bytes) → length xs ≤ n → apply_keystream xs (take n ks) ≡ apply_keystream xs ks
unfolding apply_keystream take
apply_keystream-take n [] ks h = refl
apply_keystream-take zero (x ∷ xs) ks h = absurd (omega arith)
apply_keystream-take (suc n) (x ∷ xs) [] h = refl
apply_keystream-take (suc n) (x ∷ xs) (k ∷ ks) h =
    ap (◌∷◌ (bit_xor x k)) (apply_keystream-take n xs ks (omega arith))

pub take-apply_keystream :
    (n : ℕ) (xs ks : Bytes) → take n (apply_keystream xs ks) ≡ apply_keystream (take n xs) ks
unfolding apply_keystream take
take-apply_keystream zero xs ks = refl
take-apply_keystream (suc n) [] ks = refl
take-apply_keystream (suc n) (x ∷ xs) [] = refl
take-apply_keystream (suc n) (x ∷ xs) (k ∷ ks) =
    ap (◌∷◌ (bit_xor x k)) (take-apply_keystream n xs ks)

-- A keystream that is applied twice cancels.
pub apply_keystream-apply_keystream :
    (xs ks : Bytes) → apply_keystream (apply_keystream xs ks) ks ≡ xs
unfolding apply_keystream
apply_keystream-apply_keystream [] ks = refl
apply_keystream-apply_keystream (x ∷ xs) [] = refl
apply_keystream-apply_keystream (x ∷ xs) (k ∷ ks) =
    rw (bit_xor-bit_xor x k, apply_keystream-apply_keystream xs ks) refl

-- Zeros encrypted are the keystream.
pub apply_keystream-replicate :
    (n : ℕ) (ks : Bytes) → length ks ≡ n → apply_keystream (replicate n 0) ks ≡ ks
unfolding apply_keystream replicate
apply_keystream-replicate zero [] h = refl
apply_keystream-replicate zero (k ∷ ks) h = absurd (omega arith)
apply_keystream-replicate (suc n) [] h = absurd (omega arith)
apply_keystream-replicate (suc n) (k ∷ ks) h =
    rw (bit_xor_zero k, apply_keystream-replicate n ks (omega arith)) refl

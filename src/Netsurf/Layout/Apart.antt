-- ===== src/Netsurf/Layout/Apart.antt =====
-- The keys of components/netsurf/src/sdl_fb0_shim.c do not overlap, and each lies on the keyboard.
use nookobo.Prelude.{
  ℕ, zero, suc, ◌+◌, ◌≤◌, ◌≡◌, refl, Bool, true, false, some, List, [], ◌∷◌, ◌&&◌, ◌||◌, leb,
  length, get_elem?, arith,
}
use nookobo.Netsurf.Layout.{OskKey, english_keys, russian_keys, build_osk_layout, hit, key_at}

-- One key ends before the other begins, sideways or downwards.
abbrev beside : OskKey → OskKey → Bool
beside a b =
    leb (a.x + a.w) b.x || leb (b.x + b.w) a.x || leb (a.y + a.h) b.y || leb (b.y + b.h) a.y

abbrev beside_all : OskKey → List OskKey → Bool
beside_all a [] = true
beside_all a (b ∷ ks) = beside a b && beside_all a ks

-- Every key is inside the panel, below line 1272, and beside the keys after it.
abbrev tidy : List OskKey → Bool
tidy [] = true
tidy (k ∷ ks) =
    leb 1272 k.y && (leb (k.x + k.w) 1404 && (leb (k.y + k.h) 1872 && (beside_all k ks && tidy ks)))

english_tidy : tidy (build_osk_layout false) ≡ true
unfolding build_osk_layout english_keys
english_tidy = refl

russian_tidy : tidy (build_osk_layout true) ≡ true
unfolding build_osk_layout russian_keys
russian_tidy = refl

osk_layout-tidy : (russian : Bool) → tidy (build_osk_layout russian) ≡ true
osk_layout-tidy true = russian_tidy
osk_layout-tidy false = english_tidy

-- `osk_keys` has room for 64 keys.
keys_fit : (russian : Bool) → length (build_osk_layout russian) ≤ 64
unfolding build_osk_layout english_keys russian_keys
keys_fit true = omega arith
keys_fit false = omega arith

beside-hit : (a b : OskKey) (x y : ℕ) → beside a b ≡ true → hit x y b ≡ true → hit x y a ≡ false
unfolding hit
beside-hit a b x y s h = ground arith

beside_all-hit :
    (a b : OskKey) (ks : List OskKey) (i x y : ℕ)
    → beside_all a ks ≡ true
    → get_elem? ks i ≡ some b
    → hit x y b ≡ true
    → hit x y a ≡ false
beside_all-hit a b [] i x y s g h = cc
beside_all-hit a b (k ∷ ks) zero x y s g h = ground (arith, beside-hit a k x y)
beside_all-hit a b (k ∷ ks) (suc i) x y s g h = ground (arith, beside_all-hit a b ks i x y)

key_at-tidy :
    (ks : List OskKey) (k : OskKey) (i x y : ℕ)
    → tidy ks ≡ true
    → get_elem? ks i ≡ some k
    → hit x y k ≡ true
    → key_at x y ks ≡ some k
unfolding key_at
key_at-tidy [] k i x y t g h = cc
key_at-tidy (k' ∷ ks) k zero x y t g h = ground arith
key_at-tidy (k' ∷ ks) k (suc i) x y t g h =
    ground (arith, beside_all-hit k' k ks i x y, key_at-tidy ks k i x y)

-- In both languages a touch inside a key of the keyboard finds that key and no other.
pub key_at_lem :
    (russian : Bool) (k : OskKey) (i x y : ℕ)
    → get_elem? (build_osk_layout russian) i ≡ some k
    → hit x y k ≡ true
    → key_at x y (build_osk_layout russian) ≡ some k
key_at_lem russian k i x y g h =
    key_at-tidy (build_osk_layout russian) k i x y (osk_layout-tidy russian) g h

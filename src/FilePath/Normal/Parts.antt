-- ===== src/FilePath/Normal/Parts.antt =====
-- The parts of a path, and where they lead (std::filesystem::path).
use tlgs.Common.{
  ℕ, ◌≡◌, refl, Bool, true, false, not, ◌&&◌, List, [], ◌∷◌, ◌++◌, arith, ◌==◌, Bytes, bytes_eq,
  is_empty, last_or, all, Bool-cases, inl, inr,
}
use tlgs.FilePath.{
  dot, dot_dot, cons_head, split_path, go_up, resolve_name, resolve, join_names, is_directory,
}

abbrev no_slash : Bytes → Bool
no_slash = all (λ c. not (c == b'/'))

-- A name that stays: not empty, not `.`, not `..`, and with no slash.
abbrev pub is_name : Bytes → Bool
is_name w = not (is_empty w) && not (bytes_eq w dot) && not (bytes_eq w dot_dot) && no_slash w

split_path-ne-nil : (s : Bytes) → is_empty (split_path s) ≡ false
unfolding split_path
split_path-ne-nil [] = refl
split_path-ne-nil (c ∷ s) = ground (arith, split_path-ne-nil s)

cons_head-append :
    (c : ℕ) (xs ys : List Bytes)
    → is_empty xs ≡ false
    → cons_head c (xs ++ ys) ≡ cons_head c xs ++ ys
cons_head-append c [] ys h = cc
cons_head-append c (x ∷ xs) ys h = refl

pub split_path-append : (s t : Bytes) → split_path (s ++ b'/' ∷ t) ≡ split_path s ++ split_path t
unfolding split_path
split_path-append [] t = refl
split_path-append (c ∷ s) t = ground (
  arith,
  split_path-append s t,
  cons_head-append c (split_path s) (split_path t),
  split_path-ne-nil s,
)

split_path-name : (w : Bytes) → no_slash w ≡ true → split_path w ≡ w ∷ []
unfolding split_path
split_path-name [] h = refl
split_path-name (c ∷ w) h = ground (arith, split_path-name w)

pub resolve-append :
    (a : Bool) (stack xs ys : List Bytes)
    → resolve a stack (xs ++ ys) ≡ resolve a (resolve a stack xs) ys
unfolding resolve
resolve-append a stack [] ys = refl
resolve-append a stack (x ∷ xs) ys = resolve-append a (resolve_name a stack x) xs ys

resolve_name_lem :
    (a : Bool) (stack : List Bytes) (w : Bytes)
    → is_name w ≡ true
    → resolve_name a stack w ≡ w ∷ stack
unfolding resolve_name
resolve_name_lem a stack w h = ground arith

pub split_path-all : (p : ℕ → Bool) (s : Bytes) → all p s ≡ true → all (all p) (split_path s) ≡ true
unfolding split_path
split_path-all p [] h = refl
split_path-all p (c ∷ s) h = ground (arith, split_path-all p s, cons_head-all p c (split_path s))
  where
    cons_head-all :
        (p : ℕ → Bool) (c : ℕ) (ws : List Bytes)
        → p c ≡ true
        → all (all p) ws ≡ true
        → all (all p) (cons_head c ws) ≡ true
    cons_head-all p c [] h k = ground arith
    cons_head-all p c (w ∷ ws) h k = ground arith

pub split_path-no_slash : (s : Bytes) → all no_slash (split_path s) ≡ true
unfolding split_path
split_path-no_slash [] = refl
split_path-no_slash (c ∷ s) = elim (Bool-cases (c == b'/')) [
  | inl e ↦ rw e (split_path-no_slash s)
  | inr e ↦ rw e (cons_head-no_slash c (split_path s) e (split_path-no_slash s))
]
  where
    cons_head-no_slash :
        (c : ℕ) (ws : List Bytes)
        → (c == b'/') ≡ false
        → all no_slash ws ≡ true
        → all no_slash (cons_head c ws) ≡ true
    cons_head-no_slash c [] h k = ground arith
    cons_head-no_slash c (w ∷ ws) h k = ground arith

pub resolve-is_name :
    (stack ws : List Bytes)
    → all is_name stack ≡ true
    → all no_slash ws ≡ true
    → all is_name (resolve true stack ws) ≡ true
unfolding resolve resolve_name go_up
resolve-is_name stack [] h k = h
resolve-is_name stack (w ∷ ws) h k =
    resolve-is_name (resolve_name true stack w) ws (step stack h) (ground arith)
  where
    step : (st : List Bytes) → all is_name st ≡ true → all is_name (resolve_name true st w) ≡ true
    step [] e = ground arith
    step (t ∷ st) e = ground arith

pub resolve-all :
    (p : ℕ → Bool) (stack ws : List Bytes)
    → all (all p) stack ≡ true
    → all (all p) ws ≡ true
    → all (all p) (resolve true stack ws) ≡ true
unfolding resolve resolve_name go_up
resolve-all p stack [] h k = h
resolve-all p stack (w ∷ ws) h k =
    resolve-all p (resolve_name true stack w) ws (step stack h) (ground arith)
  where
    step : (st : List Bytes) → all (all p) st ≡ true → all (all p) (resolve_name true st w) ≡ true
    step [] e = ground arith
    step (t ∷ st) e = ground arith

-- A joined stack of names reads back as that stack.
pub resolve-join_names :
    (w : Bytes) (ws : List Bytes)
    → all is_name (w ∷ ws) ≡ true
    → resolve true [] (split_path (join_names (w ∷ ws))) ≡ w ∷ ws
unfolding join_names resolve
resolve-join_names w [] h =
    rw (split_path-name w (ground arith)) (resolve_name_lem true [] w (ground arith))
resolve-join_names w (v ∷ ws) h = rw (split_path-append (join_names (v ∷ ws)) w) (
    rw (resolve-append true [] (split_path (join_names (v ∷ ws))) (split_path w)) (
      rw (resolve-join_names v ws (ground arith))
        (rw (split_path-name w (ground arith)) (resolve_name_lem true (v ∷ ws) w (ground arith)))))

pub last_or-append-ne :
    (xs : List Bytes) (y : Bytes) (ys : List Bytes) (d : Bytes)
    → last_or (xs ++ y ∷ ys) d ≡ last_or ys y
last_or-append-ne [] y ys d = refl
last_or-append-ne (x ∷ xs) y ys d = last_or-append-ne xs y ys x

pub last_or-split-join :
    (w : Bytes) (ws : List Bytes) (d : Bytes)
    → all is_name (w ∷ ws) ≡ true
    → last_or (split_path (join_names (w ∷ ws))) d ≡ w
unfolding join_names
last_or-split-join w [] d h = rw (split_path-name w (ground arith))
last_or-split-join w (v ∷ ws) d h = rw (split_path-append (join_names (v ∷ ws)) w) (
    rw (split_path-name w (ground arith))
      (last_or-append-ne (split_path (join_names (v ∷ ws))) w [] d))

pub is_directory_name : (w : Bytes) → is_name w ≡ true → is_directory w ≡ false
is_directory_name w h = ground arith

-- ===== src/FilePath/Normal.antt =====
-- What `lexically_normal` makes of an absolute path: its names are plain, and a second call
-- changes nothing. Every path of a `tlgs::Url` is absolute.
pub mod Parts
unfoldable pub use Parts.*
use tlgs.Common.{
  ℕ, ◌≡◌, refl, sym, ap, ◌∙◌, Bool, true, false, not, ◌&&◌, List, [], ◌∷◌, ◌++◌, arith, ◌==◌,
  append-nil, if◌then◌else◌, Bytes, bytes_eq, is_empty, last_or, all, all-append, Bool-cases, inl,
  inr,
}
use tlgs.FilePath.{
  dot, dot_dot, cons_head, split_path, is_absolute, go_up, resolve_name, resolve, join_names,
  is_directory, render_path, lexically_normal,
}

-- An absolute path's normal form, when the names that it resolves to are known.
normal-rooted :
    (t : Bytes) (stack : List Bytes) (d : Bool)
    → resolve true [] (split_path t) ≡ stack
    → is_directory (last_or (split_path t) []) ≡ d
    → lexically_normal (b'/' ∷ t) ≡ render_path true d stack
unfolding lexically_normal split_path resolve resolve_name
normal-rooted t stack d h k = rw (h, k)

render_directory :
    (w : Bytes) (ws : List Bytes)
    → is_name w ≡ true
    → render_path true true (w ∷ ws) ≡ b'/' ∷ (join_names (w ∷ ws) ++ b'/' ∷ [])
unfolding render_path
render_directory w ws h = ground arith

render_file :
    (w : Bytes) (ws : List Bytes) → render_path true false (w ∷ ws) ≡ b'/' ∷ join_names (w ∷ ws)
unfolding render_path
render_file w ws = ap (◌∷◌ b'/') (append-nil (join_names (w ∷ ws)))

resolve-slash :
    (t : Bytes) → resolve true [] (split_path (t ++ b'/' ∷ [])) ≡ resolve true [] (split_path t)
resolve-slash t = rw (split_path-append t []) (
    rw (resolve-append true [] (split_path t) (split_path []))
      (unfold resolve resolve_name split_path in refl))

last_or-slash : (t : Bytes) → last_or (split_path (t ++ b'/' ∷ [])) [] ≡ []
unfolding split_path
last_or-slash t = rw (split_path-append t []) (last_or-append-ne (split_path t) [] [] [])

normal-render_path :
    (d : Bool) (stack : List Bytes)
    → all is_name stack ≡ true
    → lexically_normal (render_path true d stack) ≡ render_path true d stack
normal-render_path d [] h =
    unfold lexically_normal render_path split_path resolve resolve_name in refl
normal-render_path true (w ∷ ws) h =
    ap lexically_normal (render_directory w ws (ground arith))
    ∙ normal-rooted (join_names (w ∷ ws) ++ b'/' ∷ []) (w ∷ ws) true
        (resolve-slash (join_names (w ∷ ws)) ∙ resolve-join_names w ws h)
        (ap is_directory (last_or-slash (join_names (w ∷ ws))))
normal-render_path false (w ∷ ws) h =
    ap lexically_normal (render_file w ws)
    ∙ normal-rooted (join_names (w ∷ ws)) (w ∷ ws) false (resolve-join_names w ws h)
        (ap is_directory (last_or-split-join w ws [] h) ∙ is_directory_name w (ground arith))

-- The names that an absolute path resolves to.
abbrev names_of : Bytes → List Bytes
names_of t = resolve true [] (split_path t)

normal-absolute :
    (t : Bytes)
    → lexically_normal (b'/' ∷ t)
      ≡ render_path true (is_directory (last_or (split_path t) [])) (names_of t)
normal-absolute t = normal-rooted t (names_of t) _ refl refl

-- `lexically_normal` is idempotent on absolute paths.
pub normal-normal :
    (t : Bytes) → lexically_normal (lexically_normal (b'/' ∷ t)) ≡ lexically_normal (b'/' ∷ t)
normal-normal t =
    ap lexically_normal (normal-absolute t)
    ∙ normal-render_path _ (names_of t)
        (resolve-is_name [] (split_path t) refl (split_path-no_slash t))
    ∙ sym (normal-absolute t)

join_names-all :
    (p : ℕ → Bool) (ws : List Bytes)
    → p b'/' ≡ true
    → all (all p) ws ≡ true
    → all p (join_names ws) ≡ true
unfolding join_names
join_names-all p [] h k = refl
join_names-all p (w ∷ []) h k = ground arith
join_names-all p (w ∷ v ∷ ws) h k =
    ground (arith, all-append p (join_names (v ∷ ws)) (b'/' ∷ w), join_names-all p (v ∷ ws))

render_path-all :
    (p : ℕ → Bool) (d : Bool) (ws : List Bytes)
    → p b'/' ≡ true
    → all (all p) ws ≡ true
    → all p (render_path true d ws) ≡ true
unfolding render_path
render_path-all p d [] h k = ground arith
render_path-all p d (w ∷ ws) h k = ground (
  arith,
  all-append p (join_names (w ∷ ws)) (if d && not (bytes_eq w dot_dot) then b'/' ∷ [] else []),
  join_names-all p (w ∷ ws),
)

-- No byte is new in the normal form but the slash.
pub normal-all :
    (p : ℕ → Bool) (t : Bytes)
    → p b'/' ≡ true
    → all p t ≡ true
    → all p (lexically_normal (b'/' ∷ t)) ≡ true
normal-all p t h k = rw (normal-absolute t) (
    render_path-all p _ (names_of t) h
      (resolve-all p [] (split_path t) refl (split_path-all p t k)))

-- The normal form of an absolute path is absolute.
pub normal-is_absolute : (t : Bytes) → is_absolute (lexically_normal (b'/' ∷ t)) ≡ true
normal-is_absolute t = rw (normal-absolute t) (render_path-is_absolute _ (names_of t))
  where
    render_path-is_absolute :
        (d : Bool) (ws : List Bytes) → is_absolute (render_path true d ws) ≡ true
    render_path-is_absolute d [] = unfold render_path in refl
    render_path-is_absolute d (w ∷ ws) = unfold render_path in refl

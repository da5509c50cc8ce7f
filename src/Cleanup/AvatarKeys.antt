-- ===== src/Cleanup/AvatarKeys.antt =====
-- The key of an avatar and the key of its object. The keys of avatars
-- are those that `build_avatar_key` of src/modules/user/service.rs makes.
use Prim.Native.Char.{Char, code}
use Prim.Native.String.{[] as empty_text, ◌∷◌ as text_cons, ◌++◌ as text_append}
use Prim.Native.String.append.{nil as append_nil, cons as append_cons}
use cqwu_achievement_system.Prelude.{
  ◌≡◌, refl, sym, ap, ◌∙◌, true, false, String, none, some, arith, eq→==,
}
use cqwu_achievement_system.Access.Pattern.{starts_with}
use cqwu_achievement_system.Cleanup.{
  without_extension, no_dot_or_slash, is_extension, object_key_of_avatar, strip_prefix, of_name,
  shortened,
}

-- A text without a dot has no extension.
without_extension-none :
    (text : String) → no_dot_or_slash text ≡ true → without_extension text ≡ none
unfolding without_extension no_dot_or_slash
without_extension-none empty_text h = refl
without_extension-none (text_cons c text) h = ground (arith, without_extension-none text)

without_extension-append :
    (name ext : String)
    → is_extension ext ≡ true
    → without_extension (text_append name (text_cons "." ext)) ≡ some name
unfolding without_extension
without_extension-append empty_text empty_text h = absurd (ground arith)
without_extension-append empty_text (text_cons c ext) h =
    ap without_extension (append_nil (text_cons "." (text_cons c ext)))
    ∙ rw (without_extension-none (text_cons c ext) h) (rw h refl)
without_extension-append (text_cons c name) ext h =
    ap without_extension (append_cons c name (text_cons "." ext))
    ∙ rw (without_extension-append name ext h) refl

pub append_assoc :
    (s t u : String) → text_append (text_append s t) u ≡ text_append s (text_append t u)
append_assoc empty_text t u =
    ap (λ x. text_append x u) (append_nil t) ∙ sym (append_nil (text_append t u))
append_assoc (text_cons c s) t u =
    ap (λ x. text_append x u) (append_cons c s t)
    ∙ (append_cons c (text_append s t) u
        ∙ (ap (λ x. text_cons c x) (append_assoc s t u) ∙ sym (append_cons c s (text_append t u))))

strip_prefix-append : (p t : String) → strip_prefix p (text_append p t) ≡ some t
unfolding strip_prefix
strip_prefix-append empty_text t = ap some (append_nil t)
strip_prefix-append (text_cons c p) t =
    ap (strip_prefix (text_cons c p)) (append_cons c p t)
    ∙ rw (eq→== (code c) (code c) refl) (strip_prefix-append p t)

-- The key of an avatar, without its extension, is the key of its object.
pub object_key_of_avatar-build :
    (c : Char) (id ext : String)
    → is_extension ext ≡ true
    → object_key_of_avatar
        (text_append (text_append "avatar/" (text_cons c id)) (text_cons "." ext))
      ≡ text_append "avatar/" (text_cons c id)
unfolding object_key_of_avatar of_name
object_key_of_avatar-build c id ext h =
    let key = text_append "avatar/" (text_append (text_cons c id) (text_cons "." ext)) in
    ap object_key_of_avatar (append_assoc "avatar/" (text_cons c id) (text_cons "." ext))
    ∙ (ap (of_name key)
          (strip_prefix-append "avatar/" (text_append (text_cons c id) (text_cons "." ext)))
        ∙ ap (shortened key) (without_extension-append (text_cons c id) ext h))

pub starts_with-append : (p t : String) → starts_with p (text_append p t) ≡ true
unfolding starts_with
starts_with-append empty_text t = refl
starts_with-append (text_cons c p) t =
    ap (starts_with (text_cons c p)) (append_cons c p t)
    ∙ rw (eq→== (code c) (code c) refl) (starts_with-append p t)

-- No key begins with both prefixes.
pub one_prefix :
    (key : String) → starts_with "archive/" key ≡ true → starts_with "avatar/" key ≡ false
unfolding starts_with
one_prefix empty_text h = ground arith
one_prefix (text_cons c empty_text) h = ground arith
one_prefix (text_cons c (text_cons d text)) h = ground arith

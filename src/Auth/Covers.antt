-- ===== src/Auth/Covers.antt =====
-- auth.rs: what the grants of a key let it do.
use event_stream.Prelude.{
  ◌≡◌, ◌↔◌, ◌⊎◌, inl, inr, refl, Bool, true, false, List, [], ◌∷◌, arith, Bool-cases, or_true,
}
use event_stream.Prelude.Ordered.{Str}
use event_stream.Auth.{AclAction, read, write, admin, AclRule, ApiKey, action_ok, matches, any, can}
use event_stream.Auth.Prefix.{Covers, prefix_matches→, prefix_matches←}

abbrev pub AnyOf : {A : Type 0} → (A → Type 0) → List A → Type 0
AnyOf P [] = ⊥
AnyOf P (x ∷ xs) = P x ⊎ AnyOf P xs

any→ :
    {A : Type 0} (test : A → Bool) (P : A → Type 0) (xs : List A)
    → ((x : A) → (test x ≡ true) → P x)
    → any test xs ≡ true
    → AnyOf P xs
any→ test P [] f h = absurd (cc h)
any→ test P (x ∷ xs) f h = elim (Bool-cases (test x)) [
  | inl y ↦ inl (f x y)
  | inr n ↦ inr (any→ test P xs f (ground arith))
]

any← :
    {A : Type 0} (test : A → Bool) (P : A → Type 0) (xs : List A)
    → ((x : A) → P x → test x ≡ true)
    → AnyOf P xs
    → any test xs ≡ true
any← test P [] f h = absurd h
any← test P (x ∷ xs) f (inl y) = rw (f x y) refl
any← test P (x ∷ xs) f (inr more) = rw (any← test P xs f more) (or_true (test x))

-- What a rule's action allows: itself, each action when it is `admin`, and `read` when it is `write`.
abbrev pub Allows : AclAction → AclAction → Type 0
Allows held wanted = (held ≡ admin) ⊎ (held ≡ wanted) ⊎ (held ≡ write) × (wanted ≡ read)

action_ok→ : (held wanted : AclAction) → action_ok held wanted ≡ true → Allows held wanted
action_ok→ admin wanted h = inl refl
action_ok→ read read h = inr (inl refl)
action_ok→ read write h = absurd (cc h)
action_ok→ read admin h = absurd (cc h)
action_ok→ write read h = inr (inr (refl, refl))
action_ok→ write write h = inr (inl refl)
action_ok→ write admin h = absurd (cc h)

action_ok_self : (a : AclAction) → action_ok a a ≡ true
action_ok_self read = refl
action_ok_self write = refl
action_ok_self admin = refl

action_ok← : (held wanted : AclAction) → Allows held wanted → action_ok held wanted ≡ true
action_ok← held wanted (inl e) = rw e refl
action_ok← held wanted (inr (inl e)) = rw e (action_ok_self wanted)
action_ok← held wanted (inr (inr (e, f))) = rw (e, f) refl

-- A rule grants an action on a topic.
abbrev pub Grants : AclAction → Str → AclRule → Type 0
Grants a topic r = Allows r.action a × Covers r.topic_prefix topic

matches→ : (r : AclRule) (a : AclAction) (topic : Str) → matches r a topic ≡ true → Grants a topic r
unfolding matches
matches→ r a topic h =
    (action_ok→ r.action a (ground arith), prefix_matches→ r.topic_prefix topic (ground arith))

matches← : (r : AclRule) (a : AclAction) (topic : Str) → Grants a topic r → matches r a topic ≡ true
unfolding matches
matches← r a topic (g, c) =
    ground (arith, action_ok← r.action a g, prefix_matches← r.topic_prefix topic c)

-- A key may do an action on a topic exactly when it is not disabled and one of its rules grants the action
-- (`admin` grants each, `write` also `read`) with a prefix that covers the topic: `*`, the topic's name, or a
-- name that ends where a separator stands in it.
pub can_iff :
    (k : ApiKey) (a : AclAction) (topic : Str)
    → (can k a topic ≡ true) ↔ ((k.disabled ≡ false) × AnyOf (Grants a topic) k.acls)
unfolding can
can_iff k a topic = (
  λ h. (
    ground arith,
    any→ (λ r. matches r a topic) (Grants a topic) k.acls (λ r. matches→ r a topic) (ground arith),
  ),
  λ p.
      rw (p.0, any← (λ r. matches r a topic) (Grants a topic) k.acls (λ r. matches← r a topic) p.1)
        refl,
)

-- ===== src/Pipeline/Registration.antt =====
-- Attaching and detaching plugins, copying a pipeline, and the startup check.
use vexnor.Base.{
  ℕ, suc, ◌<◌, ◌≡◌, ◌≢◌, refl, Bool, true, false, none, List, [], ◌∷◌, ◌++◌, arith, ltb, length,
  Bool-cases, ◌↔◌, All, ◌⊎◌, inl, inr,
}
use vexnor.Pipeline.{
  Plugin, Listener, Pipeline, Query, attach, unsubscribe, splice, remove_listener, append_if,
  is_some, is_empty, check_authorization, authorized, from_source,
}

-- The plugin object is not attached yet, and the tokens in use are below the next one.
pub record IsNew {P C W : Type 0} (p : Pipeline P C W) (q : Plugin P C W) : Type 0 where
  pub unknown : All (λ (x : Plugin P C W). x.identity ≢ q.identity) p.check_plugins
  pub init_tokens : All (λ (l : Listener P C W). l.token < p.next_token) p.init_listeners
  pub before_tokens : All (λ (l : Listener P C W). l.token < p.next_token) p.before_listeners
  pub end_tokens : All (λ (l : Listener P C W). l.token < p.next_token) p.end_listeners

module _ {P C W : Type 0} where
  splice-append :
      (q : Plugin P C W) (qs : List (Plugin P C W))
      → All (λ (x : Plugin P C W). x.identity ≢ q.identity) qs
      → splice q.identity (qs ++ q ∷ []) ≡ qs
  unfolding splice
  splice-append q [] h = ground arith
  splice-append q (x ∷ qs) h = ground (arith, h.0, splice-append q qs h.1)

  splice_unknown :
      (i : ℕ) (qs : List (Plugin P C W))
      → All (λ (x : Plugin P C W). x.identity ≢ i) qs
      → splice i qs ≡ qs
  unfolding splice
  splice_unknown i [] h = refl
  splice_unknown i (x ∷ qs) h = ground (arith, h.0, splice_unknown i qs h.1)

  remove-append :
      (l : Listener P C W) (ls : List (Listener P C W))
      → All (λ (x : Listener P C W). x.token < l.token) ls
      → remove_listener l.token (ls ++ l ∷ []) ≡ ls
  unfolding remove_listener
  remove-append l [] h = ground arith
  remove-append l (x ∷ ls) h = ground (arith, h.0, remove-append l ls h.1)

  remove_unknown :
      (t : ℕ) (ls : List (Listener P C W))
      → All (λ (x : Listener P C W). x.token < t) ls
      → remove_listener t ls ≡ ls
  unfolding remove_listener
  remove_unknown t [] h = refl
  remove_unknown t (x ∷ ls) h = ground (arith, h.0, remove_unknown t ls h.1)

  -- Unsubscribing a plugin that was new takes it out of the checks and of every event, and leaves
  -- all other plugins where they were.
  pub unsubscribe-attach :
      (p : Pipeline P C W) (q : Plugin P C W)
      → IsNew p q
      → unsubscribe (attach p q).0 q (attach p q).1 ≡ record p { next_token = suc p.next_token }
  unfolding unsubscribe attach
  unsubscribe-attach p q v = λ i. record {
    options = p.options;
    authorize_hooks = p.authorize_hooks;
    check_plugins = spliced (is_some q.check_hook) i;
    init_listeners = removed (is_some q.init_hook) p.init_listeners v.init_tokens i;
    before_listeners = removed (is_some q.before_hook) p.before_listeners v.before_tokens i;
    end_listeners = removed (is_some q.end_hook) p.end_listeners v.end_tokens i;
    next_token = suc p.next_token;
  }
    where
      spliced : (b : Bool) → splice q.identity (append_if b q p.check_plugins) ≡ p.check_plugins
      spliced true = splice-append q p.check_plugins v.unknown
      spliced false = splice_unknown q.identity p.check_plugins v.unknown

      removed :
          (b : Bool) (ls : List (Listener P C W))
          → All (λ (l : Listener P C W). l.token < p.next_token) ls
          → remove_listener p.next_token
              (append_if b (record { token = p.next_token; plugin = q }) ls)
            ≡ ls
      removed true ls h = remove-append (record { token = p.next_token; plugin = q }) ls h
      removed false ls h = remove_unknown p.next_token ls h

  -- A plugin without a `check` is not copied.
  pub from_source-attach :
      (p : Pipeline P C W) (q : Plugin P C W)
      → q.check_hook ≡ none
      → from_source (attach p q).0 ≡ from_source p
  unfolding from_source attach
  from_source-attach p q h = rw h

length-zero : {A : Type 0} (xs : List A) → ltb 0 (length xs) ≡ false → xs ≡ []
length-zero [] h = refl
length-zero (x ∷ xs) h = ground arith

no_tags_iff :
    (queries : List Query)
    → (ltb 0 (length (authorized queries)) ≡ false)
      ↔ All (λ (q : Query). q.authorization ≡ []) queries
unfolding authorized
no_tags_iff [] = (λ h. tt, λ h. refl)
no_tags_iff (q ∷ queries) = (
  λ h. elim (Bool-cases (ltb 0 (length q.authorization))) [
    | inl e ↦ absurd (ground (arith, h, e))
    | inr e ↦ (length-zero q.authorization e, (no_tags_iff queries).0 (rw e at h))
  ],
  λ h. rw h.0 ((no_tags_iff queries).1 h.1),
)

empty_iff : {A : Type 0} (xs : List A) → (is_empty xs ≡ false) ↔ (xs ≢ [])
empty_iff [] = (λ h. cc, λ h. absurd (h refl))
empty_iff (x ∷ xs) = (λ h e. cc, λ h. refl)

-- The startup check passes exactly where no query has tags or a hook is registered.
pub check_authorization_iff :
    {P C W : Type 0} (p : Pipeline P C W) (queries : List Query)
    → (check_authorization p queries ≡ none)
      ↔ (All (λ (q : Query). q.authorization ≡ []) queries ⊎ (p.authorize_hooks ≢ []))
unfolding check_authorization
check_authorization_iff p queries = (forwards, backwards)
  where
    forwards :
        check_authorization p queries ≡ none
        → All (λ (q : Query). q.authorization ≡ []) queries ⊎ (p.authorize_hooks ≢ [])
    forwards h = elim (Bool-cases (ltb 0 (length (authorized queries)))) [
      | inr e ↦ inl ((no_tags_iff queries).0 e)
      | inl e ↦ elim (Bool-cases (is_empty p.authorize_hooks)) [
        | inr k ↦ inr ((empty_iff p.authorize_hooks).0 k)
        | inl k ↦ absurd (ground (arith, h, e, k))
      ]
    ]

    backwards :
        All (λ (q : Query). q.authorization ≡ []) queries ⊎ (p.authorize_hooks ≢ [])
        → check_authorization p queries ≡ none
    backwards (inl h) = rw ((no_tags_iff queries).1 h)
    backwards (inr h) = ground (arith, (empty_iff p.authorize_hooks).1 h)

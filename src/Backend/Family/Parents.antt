-- ===== src/Backend/Family/Parents.antt =====
-- What adding a parent comes to, on every branch.
use ajar_family.Prelude.{
  ℕ, ◌≡◌, ◌≢◌, refl, inl, inr, List, [], ◌∷◌, Bool, true, false, not, ◌&&◌, Option, none, some,
  Memᴰ, Bool-cases, if◌then◌else◌, if-elim, and-eq-true_iff, ◌↔◌,
}
use ajar_family.Text.{Text, same, includes, nonempty, unique, all_texts}
use ajar_family.Text.Laws.{unique_from-Mem, Mem-unique_from, same_refl, same→eq}
use ajar_family.Backend.Model.{Role, FamilyMembership, Child}
use ajar_family.Backend.Store.{MemoryStore, get_membership, get_child}
use ajar_family.Backend.Table.Laws.{find-put_new}
use ajar_family.Backend.Store.Accounts.{get_user, add_membership}
use ajar_family.Backend.Outcome.{ErrorCode, Outcome, done, failed}
use ajar_family.Backend.Enrollment.{is_child_of}
use ajar_family.Backend.Family.{
  manages_parents, can_manage_parents, is_some, is_limited_guardian, is_empty, new_member,
  join_family, add_account, add_if_known, add_parent,
}

module _ (s : MemoryStore) (now : ℕ)
    (member_id event_id family_id acting_user_id new_user_id : Text) (role : Option Role)
    (asked : List Text) where
  -- Why a parent is not added, under the code that the caller gets.
  pub data Refusal : ErrorCode → Type 0 where
    not_an_owner :
        manages_parents (get_membership s family_id acting_user_id) ≡ false
        → Refusal ErrorCode.forbidden
    no_such_role : role ≡ none → Refusal ErrorCode.bad_request
    no_id : nonempty new_user_id ≡ false → Refusal ErrorCode.bad_request
    no_account : get_user s new_user_id ≡ none → Refusal ErrorCode.not_found
    already_in : get_membership s family_id new_user_id ≢ none → Refusal ErrorCode.conflict
    strange_child :
        (c : Text)
        → Memᴰ c asked
        → is_child_of (get_child s c) family_id ≡ false
        → Refusal ErrorCode.not_found
    not_narrowed :
        (r : Role)
        → role ≡ some r
        → is_limited_guardian r ≡ false
        → is_empty (unique asked) ≡ false
        → Refusal ErrorCode.bad_request

  -- What holds where a parent is added.
  pub record IsWelcome (r : Role) : Type 0 where
    pub owner :
        (a : FamilyMembership) × (get_membership s family_id acting_user_id ≡ some a)
        × (a.role ≡ Role.owner)
    pub known_role : role ≡ some r
    pub account : get_user s new_user_id ≢ none
    pub new_here : get_membership s family_id new_user_id ≡ none
    pub own_children :
        (c : Text)
        → Memᴰ c asked
        → (k : Child) × (get_child s c ≡ some k) × (k.family_id ≡ family_id)
    pub narrowed : r ≢ Role.limited_guardian → asked ≡ []

  -- The membership that is stored, field by field.
  pub record IsJoined (r : Role) (m : FamilyMembership) (s' : MemoryStore) : Type 0 where
    pub id : m.id ≡ member_id
    pub family : m.family_id ≡ family_id
    pub user : m.user_id ≡ new_user_id
    pub as_asked : m.role ≡ r
    pub children : (c : Text) → Memᴰ c m.assigned_child_ids ↔ Memᴰ c asked
    pub since : m.created_at ≡ some now
    pub stored : get_membership s' family_id new_user_id ≡ some m

  pub data Answered : Outcome FamilyMembership → Type 0 where
    refused : {code : ErrorCode} → Refusal code → Answered (failed code s)
    joined :
        (r : Role) {m : FamilyMembership} {s' : MemoryStore}
        → IsWelcome r
        → IsJoined r m s'
        → Answered (done m s')

not-eq-true : (b : Bool) → not b ≡ true → b ≡ false
not-eq-true false h = refl
not-eq-true true h = absurd (cc h)

not-eq-false : (b : Bool) → not b ≡ false → b ≡ true
not-eq-false true h = refl
not-eq-false false h = absurd (cc h)

is_some-false {ℓ} : {A : Type ℓ} (o : Option A) → is_some o ≡ false → o ≡ none
is_some-false none h = refl
is_some-false (some a) h = absurd (cc h)

is_some-true {ℓ} : {A : Type ℓ} (o : Option A) → is_some o ≡ true → o ≢ none
is_some-true none h = absurd (cc h)
is_some-true (some a) h = λ e. cc e

all_texts-Mem :
    (p : Text → Bool) (ws : List Text) → all_texts p ws ≡ true → (w : Text) → Memᴰ w ws → p w ≡ true
unfolding all_texts
all_texts-Mem p [] h w m = elim m [ ]
all_texts-Mem p (v ∷ ws) h w (Memᴰ.head e) = rw e ((and-eq-true_iff (p v) _).0 h).0
all_texts-Mem p (v ∷ ws) h w (Memᴰ.tail m) =
    all_texts-Mem p ws ((and-eq-true_iff (p v) _).0 h).1 w m

some_fails :
    (p : Text → Bool) (ws : List Text)
    → all_texts p ws ≡ false
    → (w : Text) × Memᴰ w ws × (p w ≡ false)
unfolding all_texts
some_fails p [] h = absurd (cc h)
some_fails p (v ∷ ws) h = elim (Bool-cases (p v)) [
  | inl e ↦ let (w, m, f) = some_fails p ws (rw e at h) in (w, Memᴰ.tail m, f)
  | inr n ↦ (v, Memᴰ.head refl, n)
]

is_empty-nil : (cs : List Text) → is_empty cs ≡ true → cs ≡ []
is_empty-nil [] h = refl
is_empty-nil (c ∷ cs) h = absurd (cc h)

Mem-unique : (asked : List Text) (c : Text) → Memᴰ c (unique asked) ↔ Memᴰ c asked
unfolding includes
Mem-unique asked c = (unique_from-Mem [] asked, λ m. Mem-unique_from [] asked m refl)

unique-nil : (asked : List Text) → unique asked ≡ [] → asked ≡ []
unique-nil [] e = refl
unique-nil (c ∷ cs) e =
    let listed : Memᴰ c (unique (c ∷ cs)) = (Mem-unique (c ∷ cs) c).1 (Memᴰ.head refl) in
    elim (rw e at listed) [ ]

owner_known :
    (o : Option FamilyMembership)
    → manages_parents o ≡ true
    → (a : FamilyMembership) × (o ≡ some a) × (a.role ≡ Role.owner)
owner_known none h = absurd (cc h)
owner_known (some a) h = (a, refl, owns a.role h)
  where
    owns : (r : Role) → can_manage_parents r ≡ true → r ≡ Role.owner
    owns Role.owner h = refl
    owns Role.parent h = absurd (cc h)
    owns Role.limited_guardian h = absurd (cc h)

child_known :
    (family_id : Text) (o : Option Child)
    → is_child_of o family_id ≡ true
    → (k : Child) × (o ≡ some k) × (k.family_id ≡ family_id)
child_known family_id none h = absurd (cc h)
child_known family_id (some k) h = (k, refl, same→eq k.family_id family_id h)

not_limited : (r : Role) → r ≢ Role.limited_guardian → is_limited_guardian r ≡ false
not_limited Role.owner n = refl
not_limited Role.parent n = refl
not_limited Role.limited_guardian n = absurd (n refl)

stored-join_family :
    (s : MemoryStore) (now : ℕ) (event_id family_id acting_user_id user_id : Text)
    (m : FamilyMembership)
    → m.family_id ≡ family_id
    → m.user_id ≡ user_id
    → get_membership s family_id user_id ≡ none
    → get_membership (join_family s now event_id family_id acting_user_id m) family_id user_id
      ≡ some m
unfolding get_membership join_family add_membership
stored-join_family s now event_id family_id acting_user_id user_id m f u new_here =
    find-put_new (λ (m : FamilyMembership). same m.family_id family_id && same m.user_id user_id)
      s.memberships m.id new_here (rw (f, u, same_refl family_id, same_refl user_id) refl)

module _ (s : MemoryStore) (now : ℕ)
    (member_id event_id family_id acting_user_id new_user_id : Text) (asked : List Text)
    (owner : manages_parents (get_membership s family_id acting_user_id) ≡ true) where
  abbrev AnsweredAs : Role → Outcome FamilyMembership → Type 0
  AnsweredAs r =
      Answered s now member_id event_id family_id acting_user_id new_user_id (some r) asked

  abbrev kin : Text → Bool
  kin c = is_child_of (get_child s c) family_id

  -- Past the guards on the account and the children.
  narrowing :
      (r : Role)
      → get_user s new_user_id ≢ none
      → get_membership s family_id new_user_id ≡ none
      → all_texts kin (unique asked) ≡ true
      → AnsweredAs r (
          if not (is_limited_guardian r) && not (is_empty (unique asked))
          then failed ErrorCode.bad_request s
          else done (new_member now member_id family_id new_user_id r (unique asked)) (
              join_family s now event_id family_id acting_user_id
                (new_member now member_id family_id new_user_id r (unique asked))))
  narrowing r account new_here own =
      if-elim (AnsweredAs r) (not (is_limited_guardian r) && not (is_empty (unique asked)))
        (λ b.
          let (g, e) =
            (and-eq-true_iff (not (is_limited_guardian r)) (not (is_empty (unique asked)))).0 b in
          refused (
            not_narrowed r refl (not-eq-true (is_limited_guardian r) g)
              (not-eq-true (is_empty (unique asked)) e)))
        (λ b.
          joined r
            (record {
              owner = owner_known _ owner;
              known_role = refl;
              account = account;
              new_here = new_here;
              own_children = λ c m.
                  child_known family_id (get_child s c)
                    (all_texts-Mem kin (unique asked) own c ((Mem-unique asked c).1 m));
              narrowed =
                  λ g. unique-nil asked (is_empty-nil (unique asked) (wide (not_limited r g) b));
            })
            (record {
              id = refl;
              family = refl;
              user = refl;
              as_asked = refl;
              children = Mem-unique asked;
              since = refl;
              stored =
                  stored-join_family s now event_id family_id acting_user_id new_user_id
                    (new_member now member_id family_id new_user_id r (unique asked)) refl refl
                    new_here;
            }))
    where
      wide :
          is_limited_guardian r ≡ false
          → (not (is_limited_guardian r) && not (is_empty (unique asked))) ≡ false
          → is_empty (unique asked) ≡ true
      wide g b = not-eq-false (is_empty (unique asked)) (rw g at b)

  account-Answered :
      (r : Role)
      → AnsweredAs r (
          add_account s now member_id event_id family_id acting_user_id new_user_id r
            (unique asked))
  account-Answered r =
      unfold add_account in
      if-elim (AnsweredAs r) (not (is_some (get_user s new_user_id)))
        (λ b. refused (no_account (is_some-false _ (not-eq-true _ b))))
        (λ known.
          if-elim (AnsweredAs r) (is_some (get_membership s family_id new_user_id))
            (λ b. refused (already_in (is_some-true _ b)))
            (λ fresh.
              if-elim (AnsweredAs r) (not (all_texts kin (unique asked)))
                (λ b.
                  let (c, m, f) = some_fails kin (unique asked) (not-eq-true _ b) in
                  refused (strange_child c (unique_from-Mem [] asked m) f))
                (λ own.
                  narrowing r (is_some-true _ (not-eq-false _ known)) (is_some-false _ fresh)
                    (not-eq-false _ own))))

module _ (s : MemoryStore) (now : ℕ)
    (member_id event_id family_id acting_user_id new_user_id : Text) where
  known_owner :
      (role : Option Role) (asked : List Text)
      → manages_parents (get_membership s family_id acting_user_id) ≡ true
      → Answered s now member_id event_id family_id acting_user_id new_user_id role asked (
          add_if_known s
            (λ r.
              add_account s now member_id event_id family_id acting_user_id new_user_id r
                (unique asked))
            new_user_id
            role)
  known_owner none asked owner = refused (no_such_role refl)
  known_owner (some r) asked owner =
      if-elim
        (Answered s now member_id event_id family_id acting_user_id new_user_id (some r) asked)
        (nonempty new_user_id)
        (λ b.
          account-Answered s now member_id event_id family_id acting_user_id new_user_id asked owner
            r)
        (λ b. refused (no_id b))

  -- Adding a parent either fails with the code of one of seven named reasons, and leaves the store as it
  -- is, or it answers a membership of the family for that user, of the role and with exactly the
  -- children that were asked for, which the store then has; and then an owner asked, the role and the
  -- account exist, the person is new to the family, every assigned child is of the family, and only a
  -- limited guardian is narrowed to children.
  pub add_parent-Answered :
      (role : Option Role) (asked : List Text)
      → Answered s now member_id event_id family_id acting_user_id new_user_id role asked
          (add_parent s now member_id event_id family_id acting_user_id new_user_id role asked)
  add_parent-Answered role asked =
      unfold add_parent in
      if-elim (Answered s now member_id event_id family_id acting_user_id new_user_id role asked)
        (not (manages_parents (get_membership s family_id acting_user_id)))
        (λ b. refused (not_an_owner (not-eq-true _ b)))
        (λ b. known_owner role asked (not-eq-false _ b))

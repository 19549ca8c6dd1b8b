-- ===== src/Resources/Ownership/Members.antt =====
-- Which references the operations on owner references leave.
use samba_operator.Base.{
  String, ◌≡◌, refl, sym, ap, subst, ◌∙◌, ◌==◌, ◌!=◌, ◌||◌, ◌&&◌, eq_iff, Bool, true, false, Option,
  none, some, List, [], ◌∷◌, arith, ◌⊎◌, inl, inr, Among, if◌then◌else◌,
}
use samba_operator.Api.Meta.{OwnerReference}
use samba_operator.Resources.Ownership.{
  share_group, put_ref, smb_share_owner_refs, exclude_owner_refs,
}

-- A reference with another name or another UID.
abbrev pub Another : String → String → OwnerReference → Type 0
Another name uid r = (r.name ≡ name) → (r.uid ≡ uid) → ⊥

another :
    (r : OwnerReference) (name uid : String)
    → (r.name != name || r.uid != uid) ≡ true
    → Another name uid r
another r name uid h p q = ground (arith, h, (eq_iff r.name name).1 p, (eq_iff r.uid uid).1 q)

not_another :
    (r : OwnerReference) (name uid : String)
    → (r.name != name || r.uid != uid) ≡ false
    → Another name uid r
    → ⊥
not_another r name uid h other =
    let p : (r.name == name) ≡ true = ground (arith, h) in
    let q : (r.uid == uid) ≡ true = ground (arith, h) in
    other ((eq_iff r.name name).0 p) ((eq_iff r.uid uid).0 q)

module _ (r : OwnerReference) (name uid : String) where
  kept :
      (x : OwnerReference) (refs out : List OwnerReference) (b : Bool)
      → (x.name != name || x.uid != uid) ≡ b
      → (Among r out → Among r refs × Another name uid r)
      → Among r (if b then x ∷ out else out)
      → Among r (x ∷ refs) × Another name uid r
  kept x refs out true t ih (inl e) = (inl e, subst (Another name uid) e (another x name uid t))
  kept x refs out true t ih (inr m) = let (listed, other) = ih m in (inr listed, other)
  kept x refs out false t ih m = let (listed, other) = ih m in (inr listed, other)

  -- Who is left where a share is taken out.
  pub exclude_owner_refs-Among :
      (refs : List OwnerReference)
      → Among r (exclude_owner_refs refs name uid)
      → Among r refs × Another name uid r
  unfolding exclude_owner_refs
  exclude_owner_refs-Among [] m = absurd m
  exclude_owner_refs-Among (x ∷ refs) m =
      kept x refs (exclude_owner_refs refs name uid) (x.name != name || x.uid != uid) refl
        (exclude_owner_refs-Among refs) m

  left :
      (x : OwnerReference) (out : List OwnerReference) (b : Bool)
      → (x.name != name || x.uid != uid) ≡ b
      → Another name uid r
      → (x ≡ r) ⊎ Among r out
      → Among r (if b then x ∷ out else out)
  left x out true t other m = m
  left x out false t other (inl e) =
      absurd (not_another x name uid t (subst (Another name uid) (sym e) other))
  left x out false t other (inr m) = m

  pub Among-exclude_owner_refs :
      (refs : List OwnerReference)
      → Among r refs
      → Another name uid r
      → Among r (exclude_owner_refs refs name uid)
  unfolding exclude_owner_refs
  Among-exclude_owner_refs [] m other = absurd m
  Among-exclude_owner_refs (x ∷ refs) (inl e) other =
      left x (exclude_owner_refs refs name uid) (x.name != name || x.uid != uid) refl other (inl e)
  Among-exclude_owner_refs (x ∷ refs) (inr m) other =
      left x (exclude_owner_refs refs name uid) (x.name != name || x.uid != uid) refl other
        (inr (Among-exclude_owner_refs refs m other))

-- A reference of our group and kind.
abbrev pub OfShare : (String → Option String) → OwnerReference → Type 0
OfShare group_of r = (group_of r.api_version ≡ some share_group) × (r.kind ≡ "SmbShare")

abbrev is_ours : String → OwnerReference → Bool
is_ours group x = group == share_group && x.kind == "SmbShare"

module _ (group_of : String → Option String) where
  ours :
      (x : OwnerReference) (g : String)
      → group_of x.api_version ≡ some g
      → is_ours g x ≡ true
      → OfShare group_of x
  ours x g e t =
      let p : (g == share_group) ≡ true = ground (arith, t) in
      let q : (x.kind == "SmbShare") ≡ true = ground (arith, t) in
      (e ∙ ap (λ h. some h) ((eq_iff g share_group).0 p), (eq_iff x.kind "SmbShare").0 q)

  not_ours :
      (x : OwnerReference) (g : String)
      → group_of x.api_version ≡ some g
      → is_ours g x ≡ false
      → OfShare group_of x
      → ⊥
  not_ours x g e t (group, kind) =
      let same : g ≡ share_group = cc (e, group) in
      ground (arith, t, (eq_iff g share_group).1 same, (eq_iff x.kind "SmbShare").1 kind)

  module _ (r : OwnerReference) where
    pick :
        (x : OwnerReference) (all fs refs : List OwnerReference) (g : String) (b : Bool)
        → is_ours g x ≡ b
        → group_of x.api_version ≡ some g
        → (Among r fs → Among r all × OfShare group_of r)
        → (if b then x ∷ fs else fs) ≡ refs
        → Among r refs
        → Among r (x ∷ all) × OfShare group_of r
    pick x all fs refs g true t e ih h m = elim (subst (Among r) (sym h) m) [
      | inl same ↦ (inl same, subst (OfShare group_of) same (ours x g e t))
      | inr k ↦ let (listed, is) = ih k in (inr listed, is)
    ]
    pick x all fs refs g false t e ih h m =
        let (listed, is) = ih (subst (Among r) (sym h) m) in (inr listed, is)

    put :
        (x : OwnerReference) (all refs : List OwnerReference) (g : Option String)
        (found : Option (List OwnerReference))
        → group_of x.api_version ≡ g
        → ((fs : List OwnerReference)
            → found ≡ some fs
            → Among r fs
            → Among r all × OfShare group_of r)
        → put_ref g x found ≡ some refs
        → Among r refs
        → Among r (x ∷ all) × OfShare group_of r
    unfolding put_ref
    put x all refs none found e ih h m = cc
    put x all refs (some g) none e ih h m = cc
    put x all refs (some g) (some fs) e ih h m =
        pick x all fs refs g (is_ours g x) refl e (ih fs refl) (cc h) m

    -- The references to shares are those of our group and kind.
    pub smb_share_owner_refs-Among :
        (all refs : List OwnerReference)
        → smb_share_owner_refs group_of all ≡ some refs
        → Among r refs
        → Among r all × OfShare group_of r
    unfolding smb_share_owner_refs
    smb_share_owner_refs-Among [] refs h m =
        let none_left : [] ≡ refs = cc h in absurd (subst (Among r) (sym none_left) m)
    smb_share_owner_refs-Among (x ∷ all) refs h m =
        put x all refs (group_of x.api_version) (smb_share_owner_refs group_of all) refl
          (smb_share_owner_refs-Among all) h m

    picked :
        (x : OwnerReference) (fs refs : List OwnerReference) (g : String) (b : Bool)
        → is_ours g x ≡ b
        → group_of x.api_version ≡ some g
        → OfShare group_of r
        → (if b then x ∷ fs else fs) ≡ refs
        → (x ≡ r) ⊎ Among r fs
        → Among r refs
    picked x fs refs g true t e is h m = subst (Among r) h m
    picked x fs refs g false t e is h (inl same) =
        absurd (not_ours x g e t (subst (OfShare group_of) (sym same) is))
    picked x fs refs g false t e is h (inr m) = subst (Among r) h m

    puts :
        (x : OwnerReference) (refs : List OwnerReference) (g : Option String)
        (found : Option (List OwnerReference))
        → group_of x.api_version ≡ g
        → OfShare group_of r
        → put_ref g x found ≡ some refs
        → (x ≡ r) ⊎ ((fs : List OwnerReference) → found ≡ some fs → Among r fs)
        → Among r refs
    unfolding put_ref
    puts x refs none found e is h m = cc
    puts x refs (some g) none e is h m = cc
    puts x refs (some g) (some fs) e is h (inl same) =
        picked x fs refs g (is_ours g x) refl e is (cc h) (inl same)
    puts x refs (some g) (some fs) e is h (inr k) =
        picked x fs refs g (is_ours g x) refl e is (cc h) (inr (k fs refl))

    pub Among-smb_share_owner_refs :
        (all refs : List OwnerReference)
        → smb_share_owner_refs group_of all ≡ some refs
        → OfShare group_of r
        → Among r all
        → Among r refs
    unfolding smb_share_owner_refs
    Among-smb_share_owner_refs [] refs h is m = absurd m
    Among-smb_share_owner_refs (x ∷ all) refs h is (inl same) =
        puts x refs (group_of x.api_version) (smb_share_owner_refs group_of all) refl is h
          (inl same)
    Among-smb_share_owner_refs (x ∷ all) refs h is (inr m) =
        puts x refs (group_of x.api_version) (smb_share_owner_refs group_of all) refl is h
          (inr (λ fs e. Among-smb_share_owner_refs all fs e is m))

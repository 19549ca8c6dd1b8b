-- ===== src/Planner/Compatible/Agrees.antt =====
-- Which instances may share one server.
use samba_operator.Base.{
  ◌≡◌, refl, sym, ◌↔◌, eq_iff, Option, none, some, arith, Option-cases, inl, inr,
}
use samba_operator.Base.Panics.{returns}
use samba_operator.Api.SmbShare.{SmbShare, SmbSharePvcSpec}
use samba_operator.Planner.Instance.{InstanceConfiguration}
use samba_operator.Planner.Compatible.{
  check_compatible, check_both, check_shares, check_configs, security_uid, common_uid,
}

-- The resources of two instances agree in all that a server has one of.
pub record Agree (a b : InstanceConfiguration) (c e : SmbShare) : Type 0 where
  pub namespaces : c.metadata.namespace ≡ e.metadata.namespace
  pub pvc_of_current : SmbSharePvcSpec
  pub pvc_of_existing : SmbSharePvcSpec
  pub has_current : c.spec.storage.pvc ≡ some pvc_of_current
  pub has_existing : e.spec.storage.pvc ≡ some pvc_of_existing
  pub pvc_names : pvc_of_current.name ≡ pvc_of_existing.name
  pub security_names : c.spec.security_config ≡ e.spec.security_config
  pub common_names : c.spec.common_config ≡ e.spec.common_config
  pub security_uids : security_uid a.security_config ≡ security_uid b.security_config
  pub common_uids : common_uid a.common_config ≡ common_uid b.common_config

abbrev pub Compatible : InstanceConfiguration → InstanceConfiguration → Type 0
Compatible a b = (c e : SmbShare) × (a.smb_share ≡ some c) × (b.smb_share ≡ some e) × Agree a b c e

module _ (a b : InstanceConfiguration) where
  check_configs_iff :
      (c e : SmbShare)
      → (check_configs a b c e ≡ none) ↔ (
          (c.spec.security_config ≡ e.spec.security_config)
          × (c.spec.common_config ≡ e.spec.common_config)
          × (security_uid a.security_config ≡ security_uid b.security_config)
          × (common_uid a.common_config ≡ common_uid b.common_config))
  unfolding check_configs
  check_configs_iff c e = ground (
    arith,
    eq_iff c.spec.security_config e.spec.security_config,
    eq_iff c.spec.common_config e.spec.common_config,
    eq_iff (security_uid a.security_config) (security_uid b.security_config),
    eq_iff (common_uid a.common_config) (common_uid b.common_config),
  )

  from_shares : (c e : SmbShare) → check_shares a b c e ≡ returns none → Agree a b c e
  unfolding check_shares
  from_shares c e h = elim (Option-cases c.spec.storage.pvc) [
    | inl nil ↦ absurd (ground (arith, h, nil))
    | inr (p, has_p) ↦ elim (Option-cases e.spec.storage.pvc) [
      | inl nil ↦ absurd (ground (arith, h, has_p, nil))
      | inr (q, has_q) ↦
          let rest : check_configs a b c e ≡ none = ground (arith, h, has_p, has_q) in
          let (security, common, s_uid, c_uid) = (check_configs_iff c e).0 rest in
          record {
            namespaces = ground (arith, h, eq_iff c.metadata.namespace e.metadata.namespace);
            pvc_of_current = p;
            pvc_of_existing = q;
            has_current = has_p;
            has_existing = has_q;
            pvc_names = ground (arith, h, has_p, has_q, eq_iff p.name q.name);
            security_names = security;
            common_names = common;
            security_uids = s_uid;
            common_uids = c_uid;
          }
    ]
  ]

  to_shares : (c e : SmbShare) → Agree a b c e → check_shares a b c e ≡ returns none
  unfolding check_shares
  to_shares c e g =
      let rest : check_configs a b c e ≡ none =
        (check_configs_iff c e).1
          (g.security_names, g.common_names, g.security_uids, g.common_uids) in
      ground (
        arith,
        g.has_current,
        g.has_existing,
        rest,
        g.namespaces,
        g.pvc_names,
        eq_iff c.metadata.namespace e.metadata.namespace,
        eq_iff g.pvc_of_current.name g.pvc_of_existing.name,
      )

both-Agree :
    (a b : InstanceConfiguration) (o p : Option SmbShare)
    → check_both a b o p ≡ returns none
    → (c e : SmbShare) × (o ≡ some c) × (p ≡ some e) × Agree a b c e
unfolding check_both
both-Agree a b (some c) (some e) h = (c, e, refl, refl, from_shares a b c e h)
both-Agree a b (some c) none h = cc
both-Agree a b none p h = cc

-- `CheckCompatible` finds no fault exactly where both instances have a share with a PVC, and
-- these agree in their namespaces, the names of their PVCs, security and common configurations,
-- and the UIDs of those configurations.
pub check_compatible_iff :
    (a b : InstanceConfiguration) → (check_compatible a b ≡ returns none) ↔ Compatible a b
unfolding check_compatible check_both
check_compatible_iff a b = (
  (λ h. both-Agree a b a.smb_share b.smb_share h),
  (λ (c, e, has_c, has_e, g). rw has_c (rw has_e (to_shares a b c e g))),
)

-- Agreement does not depend on which of the two comes first.
flip : (a b : InstanceConfiguration) → Compatible a b → Compatible b a
flip a b (c, e, has_c, has_e, g) = (
  e,
  c,
  has_e,
  has_c,
  record {
    namespaces = sym g.namespaces;
    pvc_of_current = g.pvc_of_existing;
    pvc_of_existing = g.pvc_of_current;
    has_current = g.has_existing;
    has_existing = g.has_current;
    pvc_names = sym g.pvc_names;
    security_names = sym g.security_names;
    common_names = sym g.common_names;
    security_uids = sym g.security_uids;
    common_uids = sym g.common_uids;
  },
)

-- Whether two instances may share a server does not depend on which of them is checked against
-- which.
pub check_compatible_sym :
    (a b : InstanceConfiguration)
    → check_compatible a b ≡ returns none
    → check_compatible b a ≡ returns none
check_compatible_sym a b h =
    (check_compatible_iff b a).1 (flip a b ((check_compatible_iff a b).0 h))

-- ===== src/Resources/Volumes.antt =====
-- internal/resources/volumes.go. A keeper is a value here: each call returns it anew, and a clone is
-- the keeper itself.
pub mod Sources
pub mod Distinct
use samba_operator.Base.{ℕ, String, ◌<>◌, ◌==◌, ◌!=◌, Bool, true, false, Option, none, some}
use samba_operator.Base.{eqb, List, [], ◌∷◌, ◌++◌, if◌then◌else◌, contains, is_some}
use samba_operator.Base.Panics.{Run, returns, panics, ◌>>=◌}
use samba_operator.Resources.Objects.{Volume, VolumeMount}
use Prim.Native.Nat.{bit_and, bit_or}

-- The tags are bits.
abbrev pub tag_data : ℕ
tag_data = 0x1

abbrev pub tag_config : ℕ
tag_config = 0x2

abbrev pub tag_meta : ℕ
tag_meta = 0x4

abbrev pub tag_ctdb : ℕ
tag_ctdb = 0x8

abbrev pub tag_ctdb_config : ℕ
tag_ctdb_config = bit_or tag_ctdb tag_config

abbrev pub tag_ctdb_meta : ℕ
tag_ctdb_meta = bit_or tag_ctdb tag_meta

pub record VolMount : Type 0 where
  pub volume : Volume
  pub mount : VolumeMount
  pub tag : ℕ

abbrev pub get_volumes : List VolMount → List Volume
get_volumes [] = []
get_volumes (v ∷ vs) = v.volume ∷ get_volumes vs

abbrev pub get_mounts : List VolMount → List VolumeMount
get_mounts [] = []
get_mounts (v ∷ vs) = v.mount ∷ get_mounts vs

pub record VolKeeper : Type 0 where
  pub vols : List VolMount

abbrev pub new_vol_keeper : VolKeeper
new_vol_keeper = record { vols = [] }

-- `vk.add(v)` and `vk.extend(vs)`.
abbrev pub add : VolKeeper → VolMount → VolKeeper
add vk v = record { vols = vk.vols ++ v ∷ [] }

abbrev pub extend : VolKeeper → List VolMount → VolKeeper
extend vk vs = record { vols = vk.vols ++ vs }

-- The loop of `validate` over the volumes, with the names that it has met.
unfoldable pub validate_from : List String → List VolMount → Option String
validate_from vnames [] = none
validate_from vnames (v ∷ vs) =
    let rest = validate_from (v.volume.name ∷ vnames) vs in
    if v.volume.name != v.mount.name
    then some ("volume/mount name mismatch: " <> v.volume.name <> " != " <> v.mount.name)
    else if contains vnames v.volume.name
    then some ("duplicate volume name found: " <> v.volume.name)
    else rest

unfoldable pub validate : VolKeeper → Option String
unfolding validate_from
validate vk = validate_from [] vk.vols

unfoldable pub must_validate : VolKeeper → Run VolKeeper
unfolding validate
must_validate vk = if is_some (validate vk) then panics else returns vk

unfoldable pub all : VolKeeper → Run (List VolMount)
unfolding must_validate
all vk = do checked ← must_validate vk; returns checked.vols

-- The loop of `exclude`.
unfoldable pub exclude_vols : ℕ → List VolMount → List VolMount
exclude_vols t [] = []
exclude_vols t (v ∷ vs) =
    let rest = exclude_vols t vs in if eqb (bit_and v.tag t) t then rest else v ∷ rest

unfoldable pub exclude : VolKeeper → ℕ → VolKeeper
unfolding exclude_vols
exclude vk t = record { vols = exclude_vols t vk.vols }

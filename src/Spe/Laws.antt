-- ===== src/Spe/Laws.antt =====
-- Packet headers by evaluation: the three classes and the payload sizes.
use rd_spe_tool.Base.{ℕ, ◌+◌, ◌≤◌, ◌<◌, ◌≡◌, refl, ◌&&◌, Bool, true, arith, leb, leb→le}
use rd_spe_tool.Base.{◌==◌, ==_iff, all_below, all_below_sound, if◌then◌else◌}
use rd_spe_tool.Spe.Header.{
  is_arm_spe_address_packet, is_arm_spe_counter_packet, is_arm_spe_events_packet,
  arm_spe_payload_size, unknown_payload_size,
}

abbrev pub one_if : Bool → ℕ
one_if b = if b then 1 else 0

-- The classes that claim a header, and the three single headers, counted.
abbrev pub claims : ℕ → ℕ
claims h =
    one_if (is_arm_spe_address_packet h)
    + one_if (is_arm_spe_counter_packet h)
    + one_if (is_arm_spe_events_packet h)
    + one_if (h == 0x00)
    + one_if (h == 0x01)
    + one_if (h == 0x71)

claims_table : all_below 256 (λ h. leb (claims h) 1) ≡ true
unfolding all_below is_arm_spe_address_packet is_arm_spe_counter_packet is_arm_spe_events_packet
claims_table = refl

-- No header byte is claimed by two of the three packet classes, so the order of the tests does not
-- matter.
pub claims-le-one : (h : ℕ) → h < 256 → claims h ≤ 1
claims-le-one h lt = leb→le _ _ (all_below_sound 256 (λ x. leb (claims x) 1) h claims_table lt)

sizes_table : all_below 256 (λ h. unknown_payload_size h == arm_spe_payload_size h) ≡ true
unfolding all_below unknown_payload_size arm_spe_payload_size
sizes_table = refl

pub unknown_payload_size-eq : (h : ℕ) → h < 256 → unknown_payload_size h ≡ arm_spe_payload_size h
unknown_payload_size-eq h lt =
    (==_iff _ _).0
      (all_below_sound 256 (λ x. unknown_payload_size x == arm_spe_payload_size x) h sizes_table lt)

address_table :
    all_below 256 (λ h. if is_arm_spe_address_packet h then arm_spe_payload_size h == 8 else true)
    ≡ true
unfolding all_below is_arm_spe_address_packet arm_spe_payload_size
address_table = refl

pub address_payload_size :
    (h : ℕ) → h < 256 → is_arm_spe_address_packet h ≡ true → arm_spe_payload_size h ≡ 8
address_payload_size h lt e =
    let row =
      all_below_sound 256
        (λ x. if is_arm_spe_address_packet x then arm_spe_payload_size x == 8 else true) h
        address_table lt in
    (==_iff _ _).0 (rw e at row)

counter_table :
    all_below 256 (λ h. if is_arm_spe_counter_packet h then arm_spe_payload_size h == 2 else true)
    ≡ true
unfolding all_below is_arm_spe_counter_packet arm_spe_payload_size
counter_table = refl

-- A counter has two bytes.
pub counter_payload_size :
    (h : ℕ) → h < 256 → is_arm_spe_counter_packet h ≡ true → arm_spe_payload_size h ≡ 2
counter_payload_size h lt e =
    let row =
      all_below_sound 256
        (λ x. if is_arm_spe_counter_packet x then arm_spe_payload_size x == 2 else true) h
        counter_table lt in
    (==_iff _ _).0 (rw e at row)

pub ts_payload_size : arm_spe_payload_size 0x71 ≡ 8
unfolding arm_spe_payload_size
ts_payload_size = refl

range_table :
    all_below 256 (λ h. leb 1 (arm_spe_payload_size h) && leb (arm_spe_payload_size h) 8) ≡ true
unfolding all_below arm_spe_payload_size
range_table = refl

pub payload_size-le :
    (h : ℕ) → h < 256 → (1 ≤ arm_spe_payload_size h) × (arm_spe_payload_size h ≤ 8)
payload_size-le h lt =
    let row =
      all_below_sound 256 (λ x. leb 1 (arm_spe_payload_size x) && leb (arm_spe_payload_size x) 8) h
        range_table lt in
    ground arith

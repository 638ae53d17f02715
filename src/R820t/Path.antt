-- ===== src/R820t/Path.antt =====
-- RF path classification and its lowering to register fields.
use libsdrgg.Prelude.{ℕ, ◌/◌, List, [], ◌∷◌, ltb, leb, ◌==◌, if◌then◌else◌, get_or}
use libsdrgg.R820t.Addr
use libsdrgg.R820t.Intents.{RegIntent, iseq_push_full, iseq_push_field}

-- `rf_path_family`
pub data PathFamily : Type 0 where
  low_pass_coupled direct_through high_bypass : PathFamily

-- `tracking_band_id`
pub data TrackingBand : Type 0 where
  band_vlf_a band_vlf_b band_vlf_c band_vlf_d band_vlf_e : TrackingBand
  band_vlf_f band_hf_a band_hf_b band_hf_c band_hf_d : TrackingBand
  band_vhf_a band_vhf_b band_vhf_c band_vhf_d band_vhf_e : TrackingBand
  band_vhf_f band_uhf_a band_uhf_b band_uhf_c band_uhf_d : TrackingBand

-- The enumerators' values.
abbrev pub band_index : TrackingBand → ℕ
band_index band_vlf_a = 0
band_index band_vlf_b = 1
band_index band_vlf_c = 2
band_index band_vlf_d = 3
band_index band_vlf_e = 4
band_index band_vlf_f = 5
band_index band_hf_a = 6
band_index band_hf_b = 7
band_index band_hf_c = 8
band_index band_hf_d = 9
band_index band_vhf_a = 10
band_index band_vhf_b = 11
band_index band_vhf_c = 12
band_index band_vhf_d = 13
band_index band_vhf_e = 14
band_index band_vhf_f = 15
band_index band_uhf_a = 16
band_index band_uhf_b = 17
band_index band_uhf_c = 18
band_index band_uhf_d = 19

-- `rf_routing_plan`
pub record RoutingPlan : Type 0 where
  pub family : PathFamily
  pub band : TrackingBand

unfoldable pub classify_family : ℕ → PathFamily
classify_family mhz =
    if ltb mhz 80 then low_pass_coupled else if ltb mhz 310 then direct_through else high_bypass

unfoldable pub classify_band : ℕ → TrackingBand
classify_band mhz =
    if ltb mhz 50
    then band_vlf_a
    else if ltb mhz 55
    then band_vlf_b
    else if ltb mhz 60
    then band_vlf_c
    else if ltb mhz 65
    then band_vlf_d
    else if ltb mhz 70
    then band_vlf_e
    else if ltb mhz 80
    then band_vlf_f
    else if ltb mhz 90
    then band_hf_a
    else if ltb mhz 100
    then band_hf_b
    else if ltb mhz 110
    then band_hf_c
    else if ltb mhz 120
    then band_hf_d
    else if ltb mhz 140
    then band_vhf_a
    else if ltb mhz 180
    then band_vhf_b
    else if ltb mhz 220
    then band_vhf_c
    else if ltb mhz 250
    then band_vhf_d
    else if ltb mhz 280
    then band_vhf_e
    else if ltb mhz 310
    then band_vhf_f
    else if ltb mhz 450
    then band_uhf_a
    else if ltb mhz 588
    then band_uhf_b
    else if ltb mhz 650
    then band_uhf_c
    else band_uhf_d

unfoldable pub classify_rf_path : ℕ → RoutingPlan
unfolding classify_family classify_band
classify_rf_path freq_hz =
    let mhz = freq_hz / 1000000 in record { family = classify_family mhz; band = classify_band mhz }

-- `path_encoding`
pub record PathEncoding : Type 0 where
  pub drain_bias : ℕ
  pub mux_selector : ℕ
  pub tracking_tap : ℕ

abbrev pub tap_by_band : List ℕ
tap_by_band =
    0xA0 ∷ 0x80 ∷ 0x60 ∷ 0x40 ∷ 0x20 ∷ 0x00 ∷ 0x60 ∷ 0x40 ∷ 0x20 ∷ 0x00 ∷ 0xE0 ∷ 0xC0 ∷ 0xA0 ∷ 0x80
    ∷ 0x60 ∷ 0x40 ∷ 0x00 ∷ 0x00 ∷ 0x00 ∷ 0x00 ∷ []

abbrev pub tracking_tap_of : ℕ → ℕ
tracking_tap_of band_idx = if ltb band_idx 20 then get_or tap_by_band band_idx 0 else 0x00

unfoldable pub encode_path : PathFamily → TrackingBand → PathEncoding
encode_path low_pass_coupled band = record {
  drain_bias = 0x08;
  mux_selector = 0x02;
  tracking_tap = tracking_tap_of (band_index band);
}
encode_path direct_through band = record {
  drain_bias = 0x00;
  mux_selector = if band_index band == band_index band_vhf_f then 0x40 else 0x41;
  tracking_tap = tracking_tap_of (band_index band);
}
encode_path high_bypass band = record {
  drain_bias = 0x00;
  mux_selector = if leb (band_index band_uhf_c) (band_index band) then 0x40 else 0x41;
  tracking_tap = tracking_tap_of (band_index band);
}

unfoldable pub lower_routing_plan : RoutingPlan → PathEncoding
unfolding encode_path
lower_routing_plan plan = encode_path plan.family plan.band

unfoldable pub compose_path_intents : PathEncoding → List RegIntent
unfolding iseq_push_full iseq_push_field
compose_path_intents enc =
    let s0 = iseq_push_field [] Addr.drain_path enc.drain_bias 0x08 in
    let s1 = iseq_push_field s0 Addr.mux_routing enc.mux_selector 0xC3 in
    let s2 = iseq_push_full s1 Addr.track_filter enc.tracking_tap in
    iseq_push_field s2 Addr.xdiv_pll 0x00 0x0B

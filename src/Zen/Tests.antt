-- ===== src/Zen/Tests.antt =====
-- Runs of the register decoding.
use rig_exporter.Base.{◌≡◌, refl, none, some}
use rig_exporter.Base.Text.{codes}
use rig_exporter.Zen.{
  negsuc, tctl_offset, ccd_temperature_register, decode_ccd_temperature, decode_energy_unit,
}

offset_of_1800x : tctl_offset (codes "AMD Ryzen 7 1800X") ≡ 20
unfolding tctl_offset
offset_of_1800x = refl

cold : decode_ccd_temperature 2359 ≡ none
unfolding decode_ccd_temperature
cold = refl

frost : decode_ccd_temperature 2400 ≡ some (negsuc 4999)
unfolding decode_ccd_temperature
frost = refl

second_chiplet : ccd_temperature_register 97 1 ≡ 367372
unfolding ccd_temperature_register
second_chiplet = refl

unit_of_ryzen : decode_energy_unit 4096 ≡ some 65536
unfolding decode_energy_unit
unit_of_ryzen = refl

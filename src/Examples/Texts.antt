-- ===== src/Examples/Texts.antt =====
-- Canonical texts at concrete inputs.
use codex_monitor_group.Base.{ℕ, refl, ◌≡◌, arith, ap, length}
use codex_monitor_group.Base.Text.{codes}
use codex_monitor_group.Protocol.{
  Value, null, field, end, object, array, cons, nil, write_canonical,
}
use codex_monitor_group.Protocol.Message.{OneLine, message_injective}
use codex_monitor_group.Protocol.Canonical.{
  objects, arrays, both, no_items, later, unmoved, swapped, write_canonical-Reordered,
}

-- An array with an object in it whose two fields change places, in an object.
abbrev ordered : Value
ordered = object (
    field (codes "logs")
      (array (cons (object (field (codes "size") null (field (codes "archived") null end))) nil))
      end)

abbrev reordered : Value
reordered = object (
    field (codes "logs")
      (array (cons (object (field (codes "archived") null (field (codes "size") null end))) nil))
      end)

write_canonical-Reordered_example : write_canonical ordered ≡ write_canonical reordered
write_canonical-Reordered_example = write_canonical-Reordered ordered reordered (
    objects (
      later (arrays (both (objects (swapped (λ e. omega (arith, ap length e)))) no_items)) unmoved))

device_line : OneLine (codes "device")
device_line = omega arith

message_injective_example :
    (codes "device" ≡ codes "device")
    × (◌≡◌ {A = ℕ} 17 17)
    × (codes "device" ≡ codes "device")
    × (codes "device" ≡ codes "device")
    × (codes "00" ≡ codes "00")
message_injective_example =
    message_injective (codes "device") (codes "device") 17 17 (codes "device") (codes "device")
      (codes "device") (codes "device") (codes "00") (codes "00") device_line device_line
      device_line device_line device_line device_line refl

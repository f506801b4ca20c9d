-- ===== src/Page/Frame.antt =====
-- What a write to one field leaves alone: the laws of Bytes, collected for `grind`, and the place of
-- a slot entry.
use persist_x.Base.{ℕ, ◌+◌, ◌-◌, ◌*◌, ◌≡◌, ◌<◌, arith}
use persist_x.Bytes.{
  rd-wr_outside, rd-wr_self, rd-put_outside, put_outside, wr_outside, peek-put_self,
  length-le_bytes,
}
use persist_x.Page.{slot_offset}

pub ruleset frame = (arith, rd-wr_outside, rd-put_outside)

pub ruleset bytes_frame = (arith, put_outside, wr_outside)

pub slot_offset_lem : (s : ℕ) → s < 682 → slot_offset s ≡ 4096 - (s + 1) * 6
unfolding slot_offset
slot_offset_lem s h = omega arith

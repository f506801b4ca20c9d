-- ===== src/BufferManager/Start.antt =====
-- A new cache is valid.
use persist_x.Base.{ℕ, zero, suc, ◌+◌, ◌≡◌, ◌<◌, refl, arith, false, Option, ne→==}
use persist_x.LogManager.{LogManager}
use persist_x.DiskManager.{DiskManager}
use persist_x.Replacer.{new_replacer}
use persist_x.Replacer.Nodes.{holds}
use persist_x.Replacer.Lru.{new_replacer-IsValid}
use persist_x.Replacer.Held.{Once}
use persist_x.BufferManager.{new_buffer, frames_from}
use persist_x.BufferManager.Frames.{IsValid}

frames_from-holds : (g i n : ℕ) → g < i → holds g (frames_from i n) ≡ false
unfolding holds
frames_from-holds g i zero h = refl
frames_from-holds g i (suc n) h =
    rw (holds, ne→== g i (λ e. omega (arith, e, h)))
      (frames_from-holds g (i + 1) n (omega (arith, h)))

frames_from-Once : (i n : ℕ) → Once (frames_from i n)
frames_from-Once i zero = tt
frames_from-Once i (suc n) =
    (frames_from-holds i (i + 1) n (omega arith), frames_from-Once (i + 1) n)

-- Every frame of a new cache is free.
pub new_buffer-IsValid :
    (disk : DiskManager) (log : Option LogManager) (n : ℕ) → IsValid (new_buffer disk log n)
unfolding new_buffer new_replacer holds
new_buffer-IsValid disk log n = record {
  links = record {
    replacer = new_replacer-IsValid n;
    mapped = λ id f e. absurd (cc e);
    once = frames_from-Once 0 n;
    free = λ id f h e. cc e;
    victim = λ f h. absurd (cc h);
    unpinned = λ f h. absurd (cc h);
  };
  counts = λ f. omega arith;
  owned = λ f d. absurd (cc d);
  clean = λ id f e. absurd (cc e);
}

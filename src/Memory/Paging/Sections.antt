-- ===== src/Memory/Paging/Sections.antt =====
-- The frame pool of the sections serves the page tables.
use cthulhu_os.Prelude.{sym, ap, ◌∙◌, false, Option, none, some, List}
use cthulhu_os.Memory.Frames.{Section, free_frame_loop, free_frame}
use cthulhu_os.Memory.Frames.Pool.{IsPool, free_frames, free_frame_loop-Handed}
use cthulhu_os.Memory.Frames.Serve.{free_frames-Distinct, free_frames-aligned}
use cthulhu_os.Memory.Paging.{FramePool}
use mathlib.Core.Path.{subst}

-- An access past an array does not happen in a valid pool; the pool is left alone there.
abbrev or_same {ℓ} : {A : Type ℓ} → A → List Section → Option (A × List Section) → A × List Section
or_same a p none = (a, p)
or_same a p (some r) = r

abbrev pub sections : FramePool
sections = record {
  Pool = List Section;
  get_free_frame = λ p. or_same 0 p (free_frame_loop p);
  free_frame = λ a p. or_same false p (free_frame a p);
  Valid = IsPool;
  free = free_frames;
  gets =
      λ p v. let h = free_frame_loop-Handed p v in ap (λ r. (or_same 0 p r).0) h.result ∙ h.first;
  leaves = λ p v.
      let h = free_frame_loop-Handed p v in
      ap (λ r. free_frames (or_same 0 p r).1) h.result ∙ h.others;
  stays = λ p v.
      let h = free_frame_loop-Handed p v in
      subst (λ r. IsPool (or_same 0 p r).1) (sym h.result) h.valid;
  distinct = free_frames-Distinct;
  frames = free_frames-aligned;
}

-- ===== src/Memory/Frames.antt =====
-- The pool of physical frames (src/kernel/memory/paging.c: `get_free_frame`, `free_frame`,
-- `get_frame_info`, `make_pool`) and the heap of the boot phase (`malign` of memory/heap.c).
-- A section keeps two arrays, and a `stack_element_t*` is an index into one of them; the free list
-- that hangs on `section->head` is the list of those indices, and the list of sections is the pool.
-- An access past an array ends in `none`.
pub mod Free
pub mod Pool
pub mod Make
pub mod Serve
use cthulhu_os.Prelude.{
  ℕ, zero, suc, ◌+◌, ◌-◌, ◌*◌, ◌/◌, ◌%◌, Bool, true, false, ◌&&◌, Option, none, some, List, [], ◌∷◌,
  ltb, leb, ◌==◌, if◌then◌else◌, u32, add64, sub64, get_elem?, set,
}
use mathlib.Core.Option

-- `stack_element_t`; `next` is the rest of the list that it stands in.
pub record StackElement : Type 0 where
  pub frame_address : ℕ
  pub array_ord : ℕ

-- `frame_info_t`
pub record FrameInfo : Type 0 where
  pub usage_count : ℕ
  pub cow_count : ℕ
  pub bound_stack_element : ℕ

-- `section_info_t`, with the array of stack elements that stands behind `frame_array`.
pub record Section : Type 0 where
  pub head : List ℕ
  pub elements : List StackElement
  pub frame_array : List FrameInfo
  pub start_word : ℕ
  pub end_word : ℕ
  pub total_frames : ℕ

-- `ALIGN`: the low twelve bits are cleared.
unfoldable pub align : ℕ → ℕ
align a = a - a % 0x1000

-- `section->head = se->next; frame_array[se->array_ord].usage_count = 1`
unfoldable pub take_element : Section → List ℕ → StackElement → FrameInfo → ℕ × Section
take_element s rest se fi = (
  se.frame_address,
  record s {
    head = rest;
    frame_array = set s.frame_array se.array_ord (record fi { usage_count = 1 });
  },
)

-- One round of the loop of `get_free_frame`, at a section with a free frame.
unfoldable pub take_frame : Section → ℕ → List ℕ → Option (ℕ × Section)
unfolding take_element Option.bind
take_frame s e rest =
    Option.bind (get_elem? s.elements e)
      (λ se. Option.map (take_element s rest se) (get_elem? s.frame_array se.array_ord))

-- The loop of `get_free_frame` over the sections of the pool; the address 0 is the failure.
-- `further` is what the rest of the loop does.
unfoldable pub hand_out :
    Section → List ℕ → List Section → Option (ℕ × List Section) → Option (ℕ × List Section)
unfolding take_frame
hand_out s [] ss further = Option.map (λ r. (r.0, s ∷ r.1)) further
hand_out s (e ∷ rest) ss further = Option.map (λ r. (r.0, r.1 ∷ ss)) (take_frame s e rest)

unfoldable pub free_frame_loop : List Section → Option (ℕ × List Section)
unfolding hand_out
free_frame_loop [] = some (0, [])
free_frame_loop (s ∷ ss) = let further = free_frame_loop ss in hand_out s s.head ss further

-- `malign`, from the temporary heap while there is one, else from `malloc`, whose answer for
-- `amount + align + 8` bytes is an argument; the address and `tmp_heap` afterwards.
unfoldable pub malign : ℕ → ℕ → ℕ → ℕ → ℕ × ℕ
malign malloc tmp_heap amount align_to =
    let head =
      if tmp_heap % align_to == 0
      then tmp_heap
      else add64 tmp_heap (align_to - tmp_heap % align_to) in
    let aligned = add64 malloc 8 in
    if tmp_heap == 0
    then (
      (if aligned % align_to == 0 then aligned else add64 aligned (align_to - aligned % align_to)),
      0,
    )
    else (head, add64 head amount)

-- `get_free_frame`: without a pool (NULL) a frame of the kernel's image space, with one the loop.
-- The result is the address, the pool and `tmp_heap`.
unfoldable pub get_free_frame : ℕ → ℕ → List Section → Option (ℕ × List Section × ℕ)
unfolding malign free_frame_loop
get_free_frame malloc tmp_heap [] =
    let (head, tmp') = malign malloc tmp_heap 0x1000 0x1000 in
    some (sub64 head 0xFFFFFFFF80000000, [], tmp')
get_free_frame malloc tmp_heap (s ∷ ss) =
    Option.map (λ r. (r.0, r.1, tmp_heap)) (free_frame_loop (s ∷ ss))

unfoldable pub in_section : ℕ → Section → Bool
in_section fa s = leb s.start_word fa && ltb fa s.end_word

-- `uint32_t idx = (fa-section->start_word) / 0x1000`
unfoldable pub frame_index : ℕ → Section → ℕ
frame_index fa s = sub64 fa s.start_word / 0x1000 % u32

-- `--fi->usage_count; if (fi->cow_count > 0) --fi->cow_count;` on 32-bit counts.
unfoldable pub drop_use : FrameInfo → FrameInfo
drop_use fi = record fi {
  usage_count = (fi.usage_count + (u32 - 1)) % u32;
  cow_count = fi.cow_count - 1;
}

-- The section afterwards, and whether the frame was put back (it is then filled with zeros).
unfoldable pub release : Section → ℕ → FrameInfo → Bool × Section
unfolding drop_use
release s idx fi =
    let fi' = drop_use fi in
    let s' : Section = record s { frame_array = set s.frame_array idx fi' } in
    if fi'.usage_count == 0
    then (true, record s' { head = fi.bound_stack_element ∷ s.head })
    else (false, s')

-- The loop of `free_frame`. An address in no section is passed over.
unfoldable pub release_loop : ℕ → List Section → Option (Bool × List Section)
unfolding in_section frame_index release
release_loop fa [] = some (false, [])
release_loop fa (s ∷ ss) =
    let idx = frame_index fa s in
    let further = Option.map (λ r. (r.0, s ∷ r.1)) (release_loop fa ss) in
    if in_section fa s
    then Option.map (λ fi. let r = release s idx fi in (r.0, r.1 ∷ ss))
        (get_elem? s.frame_array idx)
    else further

unfoldable pub free_frame : ℕ → List Section → Option (Bool × List Section)
unfolding align release_loop
free_frame frame_address pool = release_loop (align frame_address) pool

-- `get_frame_info`: `none` is NULL, or an index past the array.
unfoldable pub get_frame_info : ℕ → List Section → Option FrameInfo
unfolding in_section frame_index
get_frame_info fa [] = none
get_frame_info fa (s ∷ ss) =
    let further = get_frame_info fa ss in
    if in_section fa s then get_elem? s.frame_array (frame_index fa s) else further

-- `make_pool`: the sizes of the three structures are 48, 24 and 16 bytes.
unfoldable pub count_frames : ℕ → ℕ
count_frames length = sub64 (sub64 length 48 / (0x1000 + (24 + 16))) 1

unfoldable pub first_frame : ℕ → ℕ → ℕ
unfolding align
first_frame base_addr uframes = align (base_addr + (48 + uframes * 24 + uframes * 16) + 0x1000)

-- The loop of `make_pool` from `i` on, with `n` frames left. `old` stands for what the memory holds
-- where the code writes nothing: the ordinal of an element below 2 MB and its frame's `cow_count`.
unfoldable pub make_elements : (ℕ → ℕ) → ℕ → ℕ → ℕ → List StackElement
make_elements old start i zero = []
make_elements old start i (suc n) =
    let address = start + i * 0x1000 in
    record { frame_address = address; array_ord = if ltb address 0x200000 then old i else i }
    ∷ make_elements old start (suc i) n

unfoldable pub make_infos : (ℕ → ℕ) → ℕ → ℕ → ℕ → List FrameInfo
make_infos old start i zero = []
make_infos old start i (suc n) =
    let low = ltb (start + i * 0x1000) 0x200000 in
    record {
      usage_count = if low then 1 else 0;
      cow_count = if low then old i else 0;
      bound_stack_element = i;
    }
    ∷ make_infos old start (suc i) n

unfoldable pub make_head : ℕ → ℕ → ℕ → List ℕ
make_head start i zero = []
make_head start i (suc n) =
    let rest = make_head start (suc i) n in
    if ltb (start + i * 0x1000) 0x200000 then rest else i ∷ rest

unfoldable pub make_pool : (ℕ → ℕ) → ℕ → ℕ → Section
unfolding count_frames first_frame make_elements make_infos make_head
make_pool old length base_addr =
    let uframes = count_frames length in
    let start = first_frame base_addr uframes in
    record {
      head = make_head start 0 uframes;
      elements = make_elements old start 0 uframes;
      frame_array = make_infos old start 0 uframes;
      start_word = start;
      end_word = base_addr + length;
      total_frames = uframes;
    }

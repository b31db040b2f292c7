-- ===== src/Capture.antt =====
-- apptpl/capture.h and apptpl/capture.c: `capture_open`, `capture_close`, `capture_stats` and
-- `capture_loop_stop`. What libpcap answers is an argument. A program is compiled into memory
-- that `capture_open` has allocated; `pcap_freecode` frees what `pcap_compile` has put there.
pub mod Loop
pub mod Open
use capptpl.Base.{
  Bool, Bytes, Option, false, if◌then◌else◌, length, ltb, none, some, true, ℕ, ◌==◌, ◌||◌, ◌∷◌,
}
use capptpl.Base.Int.{ℤ}
use capptpl.Base.Ledger.{M, pure, release, release_if, ◌>>=◌, ◌>>◌}

pub data Resource : Type 0 where
  pcap_handle bpf_memory bpf_code : Resource

abbrev pub tag : Resource → ℕ
tag pcap_handle = 0
tag bpf_memory = 1
tag bpf_code = 2

-- `struct pcap_stat`
pub record Stats : Type 0 where
  pub ps_recv : ℕ
  pub ps_drop : ℕ
  pub ps_ifdrop : ℕ

-- `struct capture`, less its channel; `handle` and `bpf` say that the pointer is not NULL.
pub record Capture : Type 0 where
  pub device : Bytes
  pub filter : Bytes
  pub snaplen : ℤ
  pub buffer_size : ℤ
  pub shutdown : Bool
  pub pkts : ℕ
  pub bytes : ℕ
  pub ps : Stats
  pub handle : Bool
  pub bpf : Bool

-- What the calls that can fail answer.
pub record Answers : Type 0 where
  pub create_ok : Bool
  pub activate_ok : Bool
  pub malloc_ok : Bool
  pub compile_ok : Bool
  pub setfilter_ok : Bool
  pub datalink : ℕ

-- The arguments of `capture_open`.
pub record Settings : Type 0 where
  pub device : Bytes
  pub snaplen : ℤ
  pub buffer_size : ℤ
  pub filter : Bytes

-- The label `err`.
unfoldable pub open_failed : Bool → Capture → M Resource (Bool × Capture)
open_failed has_bpf c = do
  release tag pcap_handle
  release_if tag has_bpf bpf_code
  release_if tag has_bpf bpf_memory
  pure (false, c)

-- The label `done`.
unfoldable pub open_done : Settings → Bool → Capture → M Resource (Bool × Capture)
open_done s has_bpf c = pure (
  true,
  record c {
    handle = true;
    bpf = has_bpf;
    device = s.device;
    filter = s.filter;
    snaplen = s.snaplen;
    buffer_size = s.buffer_size;
  },
)

-- DLT_EN10MB is 1 and DLT_NULL is 0.
unfoldable pub check_link : Settings → Answers → Bool → Capture → M Resource (Bool × Capture)
unfolding open_failed open_done
check_link s a has_bpf c =
    if a.datalink == 1 || a.datalink == 0 then open_done s has_bpf c else open_failed has_bpf c

-- The filter, once the device is active.
unfoldable pub set_filter : Settings → Answers → Capture → M Resource (Bool × Capture)
unfolding open_failed check_link
set_filter s a c live =
    if ltb 0 (length s.filter)
    then if a.malloc_ok
      then if a.compile_ok
        then if a.setfilter_ok
          then check_link s a true c (bpf_code ∷ bpf_memory ∷ live)
          else open_failed true c (bpf_code ∷ bpf_memory ∷ live)
        else open_failed true c (bpf_memory ∷ live)
      else open_failed false c live
    else check_link s a false c live

-- Whether it returns 0, and the capture.
unfoldable pub capture_open : Settings → Answers → Capture → M Resource (Bool × Capture)
unfolding open_failed set_filter
capture_open s a c live =
    if c.handle
    then some ((false, c), live)
    else if a.create_ok
    then if a.activate_ok
      then set_filter s a c (pcap_handle ∷ live)
      else open_failed false c (pcap_handle ∷ live)
    else some ((false, c), live)

-- `if (captr->handle != NULL) …`
unfoldable pub close_handle : Capture → M Resource Capture
close_handle c =
    if c.handle then (release tag pcap_handle >> pure (record c { handle = false })) else pure c

-- `if (captr->bpf != NULL) …`
unfoldable pub close_bpf : Capture → M Resource Capture
close_bpf c =
    if c.bpf
    then (release tag bpf_code >> release tag bpf_memory >> pure (record c { bpf = false }))
    else pure c

unfoldable pub capture_close : Capture → M Resource Capture
unfolding close_handle close_bpf
capture_close c = close_handle c >>= close_bpf

-- `answer` is what `pcap_stats` gives; `none` is its failure.
unfoldable pub capture_stats : Option Stats → Capture → Bool × Capture
capture_stats answer c =
    if c.handle
    then elim answer [ none ↦ (false, c) | some s ↦ (true, record c { ps = s }) ]
    else (false, c)

unfoldable pub capture_loop_stop : Capture → Capture
capture_loop_stop c = if c.handle then record c { shutdown = true } else c

-- ===== src/Capture/Open.antt =====
-- What `capture_open` holds, and that `capture_close` gives it back.
use capptpl.Base.{
  Bool, Bool-cases, List, Option, [], arith, false, if-both, if-cases, if◌then◌else◌, inl, inr,
  length, ltb, none, not, refl, some, true, ◌&&◌, ◌++◌, ◌==◌, ◌||◌, ◌∷◌, ◌≡◌, ◌⊎◌,
}
use capptpl.Base.Ledger.{M}
use capptpl.Capture.{
  Answers, Capture, Resource, Settings, bpf_code, bpf_memory, capture_close, capture_open,
  check_link, open_failed, pcap_handle, set_filter,
}

-- What an open capture holds.
pub held : Capture → List Resource
held c =
    (if c.bpf then bpf_code ∷ bpf_memory ∷ [] else [])
    ++ (if c.handle then pcap_handle ∷ [] else [])

abbrev pub IsClosed : Capture → Type 0
IsClosed c = (c.handle ≡ false) × (c.bpf ≡ false)

-- `pcap_compile` is reached and fails.
unfoldable pub compile_fails : Settings → Answers → Bool
compile_fails s a =
    a.create_ok && a.activate_ok && ltb 0 (length s.filter) && a.malloc_ok && not a.compile_ok

-- What the result of `capture_open` says of the capture and of what is held.
abbrev pub Opens : Settings → Capture → Option ((Bool × Capture) × List Resource) → Type 0
Opens s c o =
    (o ≡ some ((false, c), []))
    ⊎ ((b : Bool) × (o
          ≡ some (
            (
              true,
              record c {
                handle = true;
                bpf = b;
                device = s.device;
                filter = s.filter;
                snaplen = s.snaplen;
                buffer_size = s.buffer_size;
              },
            ),
            (if b then bpf_code ∷ bpf_memory ∷ [] else []) ++ pcap_handle ∷ [],
          )))

check_link-Opens :
    (s : Settings) (a : Answers) (c : Capture) (b : Bool)
    → Opens s c
        (check_link s a b c ((if b then bpf_code ∷ bpf_memory ∷ [] else []) ++ pcap_handle ∷ []))
unfolding check_link
check_link-Opens s a c true =
    if-both
      (λ (m : M Resource (Bool × Capture)).
        Opens s c (m (bpf_code ∷ bpf_memory ∷ pcap_handle ∷ [])))
      (a.datalink == 1 || a.datalink == 0) (inr (true, refl)) (inl refl)
check_link-Opens s a c false =
    if-both (λ (m : M Resource (Bool × Capture)). Opens s c (m (pcap_handle ∷ [])))
      (a.datalink == 1 || a.datalink == 0) (inr (false, refl)) (inl refl)

set_filter-Opens :
    (s : Settings) (a : Answers) (c : Capture)
    → (ltb 0 (length s.filter) && a.malloc_ok && not a.compile_ok) ≡ false
    → Opens s c (set_filter s a c (pcap_handle ∷ []))
unfolding set_filter open_failed
set_filter-Opens s a c h = elim (Bool-cases (ltb 0 (length s.filter))) [
  | inr e ↦ rw e (check_link-Opens s a c false)
  | inl e ↦ rw e (
      if-cases (Opens s c) a.malloc_ok _ _
        (λ m.
          if-cases (Opens s c) a.compile_ok _ _
            (λ k. if-both (Opens s c) a.setfilter_ok (check_link-Opens s a c true) (inl refl))
            (λ k. absurd (ground (arith, h))))
        (λ m. inl refl))
]

-- On a capture that is closed, and unless a filter fails to compile: `capture_open` frees nothing
-- that it does not hold. Where it fails the capture is as it was and nothing is held; where it
-- returns 0 the capture has the settings, and holds the handle, and the compiled filter if there
-- is one.
pub capture_open-Opens :
    (s : Settings) (a : Answers) (c : Capture)
    → IsClosed c
    → compile_fails s a ≡ false
    → Opens s c (capture_open s a c [])
unfolding capture_open compile_fails open_failed
capture_open-Opens s a c k h =
    if-cases (Opens s c) c.handle _ _ (λ e. absurd (ground arith))
      (λ _.
        if-cases (Opens s c) a.create_ok _ _
          (λ e.
            if-cases (Opens s c) a.activate_ok _ _ (λ f. set_filter-Opens s a c (ground arith))
              (λ f. inl refl))
          (λ e. inl refl))

-- Where the filter of a closed capture fails to compile, `capture_open` calls `pcap_freecode` on
-- memory in which there is no program.
pub capture_open-eq-none :
    (s : Settings) (a : Answers) (c : Capture)
    → IsClosed c
    → compile_fails s a ≡ true
    → capture_open s a c [] ≡ none
unfolding capture_open compile_fails set_filter open_failed
capture_open-eq-none s a c k h = ground arith

-- On a capture that is closed: where a filter fails to compile, `capture_open` calls
-- `pcap_freecode` on memory in which there is no program. On every other branch it frees nothing
-- that it does not hold; where it fails the capture is as it was and nothing is held, and where it
-- returns 0 the capture has the settings and holds the handle, and the compiled filter if there
-- is one.
pub capture_open_cases :
    (s : Settings) (a : Answers) (c : Capture)
    → IsClosed c
    → ((compile_fails s a ≡ true) × (capture_open s a c [] ≡ none))
      ⊎ ((compile_fails s a ≡ false) × Opens s c (capture_open s a c []))
capture_open_cases s a c k = elim (Bool-cases (compile_fails s a)) [
  | inl h ↦ inl (h, capture_open-eq-none s a c k h)
  | inr h ↦ inr (h, capture_open-Opens s a c k h)
]

-- `capture_close` frees what an open capture holds, each once, and closes it; closing once more
-- does nothing.
pub capture_close_lem :
    (c : Capture)
    → (c' : Capture) × (capture_close c (held c) ≡ some (c', []))
      × IsClosed c'
      × (capture_close c' [] ≡ some (c', []))
unfolding capture_close held
capture_close_lem c = (record c { handle = false; bpf = false }, ground arith, (refl, refl), refl)

-- ===== src/Samples/Reuse.antt =====
-- Requests of dlmalloc.c that a small bin serves, at the state of `Bins`.
use precision_gc.Base.{◌+◌, ◌≡◌, refl, inl, inr, arith, [], ◌∷◌, ◌==◌, if◌then◌else◌}
use precision_gc.Types.{done}
use precision_gc.Trigger.{pad_request}
use precision_gc.Dlmalloc.{Mstate}
use precision_gc.Dlmalloc.Bins.{small_index}
use precision_gc.Dlmalloc.Small.Ring.{IsBin}
use precision_gc.Dlmalloc.Small.First.{IsBin-frame}
use precision_gc.Dlmalloc.Serve.{padded, serve}
use precision_gc.Dlmalloc.Serve.Exact.{serve-exact}
use precision_gc.Dlmalloc.Checks.{do_check_malloced_chunk}
use precision_gc.Dlmalloc.Free.{dlfree}
use precision_gc.Dlmalloc.Free.Reuse.{IsEnclosed, dlfree-serve}
use precision_gc.Samples.Arena.{build_params, bump_os}
use precision_gc.Samples.Bins.{binned, members, binned-IsBin}

serve-exact_example :
    (t : Mstate) × (serve 40 10 binned ≡ done (0x10_0040 + 16, t))
    × (do_check_malloced_chunk build_params (0x10_0040 + 16) (padded 10) t ≡ done tt)
    × IsBin t (small_index (padded 10)) (0x10_0080 ∷ [])
unfolding padded pad_request
serve-exact_example =
    serve-exact build_params 40 0x10_0040 10 binned (0x10_0080 ∷ []) (omega arith) binned-IsBin
      (inl (omega arith), (inr (omega arith), tt)) refl

-- Beside the bin there is a block of 32 bytes in use at 0x100100, and one behind it.
abbrev used : Mstate
used = record binned {
  word = λ a. if a == 0x10_0108 then 35 else if a == 0x10_0128 then 35 else binned.word a;
}

used-IsBin : IsBin used 4 members
used-IsBin =
    IsBin-frame binned used.word 4 members ((refl, refl), ((refl, refl), ((refl, refl), tt)))
      binned-IsBin

used-IsEnclosed : IsEnclosed 0x10_0100 32 used
used-IsEnclosed = record { owned = omega arith; own_head = refl; next_head = refl }

dlfree-serve_example :
    (t : Mstate) × (u : Mstate) × (dlfree bump_os build_params 40 (0x10_0100 + 16) used ≡ done t)
    × IsBin t (small_index (padded 10)) (0x10_0100 ∷ members)
    × (serve 40 10 t ≡ done (0x10_0100 + 16, u))
    × (do_check_malloced_chunk build_params (0x10_0100 + 16) (padded 10) u ≡ done tt)
    × IsBin u (small_index (padded 10)) members
unfolding padded pad_request
dlfree-serve_example =
    dlfree-serve bump_os build_params 40 0x10_0100 10 used members (omega arith) refl
      used-IsEnclosed used-IsBin
      (
        (
          (omega arith, omega arith, omega arith),
          ((omega arith, omega arith, omega arith), ((omega arith, omega arith, omega arith), tt)),
        ),
        binned-IsBin.apart,
      )
      (inl (omega arith), (inl (omega arith), (inl (omega arith), tt)))

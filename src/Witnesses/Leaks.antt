-- ===== src/Witnesses/Leaks.antt =====
-- An address that src/openflow.c frees although it did not ask for the block.
use o_rss_nic.Prelude.{List, Returns, [], arith, ok, refl, ℕ, ◌+◌, ◌∷◌, ◌≡◌}
use o_rss_nic.Openflow.Flows.{Action, Content, free_actions_loop, row_bodies}
use o_rss_nic.Openflow.Replies.{actions_loop}
use o_rss_nic.Openflow.Unknown.{actions_loop-unknown}
use o_rss_nic.Words.{slice_at}
use o_rss_nic.Witnesses.Bytes.{little_memory}
use o_rss_nic.Witnesses.Messages.{little_endian}

-- The first place has kept the address 77.
abbrev stale : ℕ → Action
stale j = record { type = 0; body = 77 + j; content = Content.no_content }

unknown_example :
    Returns (actions_loop little_endian little_memory 4 (0 ∷ 9 ∷ 0 ∷ 8 ∷ []) 0 8 0 1000 stale) λ r.
      (r.1 ≡ 1)
      × (r.2 ≡ 1000)
      × ((freed : List ℕ) → free_actions_loop r.1 0 r.0 freed ≡ ok (77 ∷ freed))
unfolding row_bodies slice_at
unknown_example =
    actions_loop-unknown little_endian little_memory 3 (0 ∷ 9 ∷ 0 ∷ 8 ∷ []) (0 ∷ 9 ∷ []) 0 8 0 1000
      stale (omega arith) (omega arith) refl (λ e. omega arith) (λ e. omega arith)

-- ===== src/Node/Runtime/Dispatch.antt =====
-- What holds after every handler holds after a packet.
use ghost_cache.Common.{◌≡◌, refl, ℕ, Bool, true, false, ◌==◌, if◌then◌else◌}
use ghost_cache.Node.Kind
use ghost_cache.Node.Packet.{Packet, broadcast}
use ghost_cache.Node.Runtime.{Runtime, Env}
use ghost_cache.Node.Runtime.Peers.{handle_root_summary}
use ghost_cache.Node.Runtime.Reconcile.{serve_summary, accept_summary, accept_leaf}
use ghost_cache.Node.Runtime.Serve.{serve_manifest, serve_signature, serve_chunks}
use ghost_cache.Node.Runtime.Accept.{accept_manifest, accept_signature, accept_chunk}
use ghost_cache.Node.Runtime.Loop.{handle_addressed, handle_packet}

module _ (P : Runtime → Type 0) where
  -- A branch of a switch, and one for which it matters that it is taken.
  either_branch : (test : Bool) (r r' : Runtime) → P r → P r' → P (if test then r else r')
  either_branch true r r' h h' = h
  either_branch false r r' h h' = h'

  taken_branch :
      (test : Bool) (r r' : Runtime) → (test ≡ true → P r) → P r' → P (if test then r else r')
  taken_branch true r r' h h' = h refl
  taken_branch false r r' h h' = h'

  -- What the handlers of the answers and of the requests leave.
  pub record Handled (env : Env) (now : ℕ) (p : Packet) (r : Runtime) : Type 0 where
    pub manifest_served : P (serve_manifest env now p r)
    pub chunks_served : P (serve_chunks env now p r)
    pub manifest_accepted : (p.type == Kind.manifest) ≡ true → P (accept_manifest env now p r)
    pub chunk_accepted : (p.type == Kind.chunk) ≡ true → P (accept_chunk env now p r)
    pub signature_served : P (serve_signature env now p r)
    pub signature_accepted : (p.type == Kind.signature) ≡ true → P (accept_signature env now p r)
    pub summary_served : P (serve_summary env now p r)
    pub summary_accepted : (p.type == Kind.summary) ≡ true → P (accept_summary env now p r)
    pub leaf_accepted : (p.type == Kind.leaf) ≡ true → P (accept_leaf env now p r)
    pub root_handled : P (handle_root_summary env now p r)
    pub ignored : P r

  handle_addressed-dispatch :
      (env : Env) (now : ℕ) (p : Packet) (r : Runtime)
      → Handled env now p r
      → P (handle_addressed env now p r)
  unfolding handle_addressed
  handle_addressed-dispatch env now p r h = either_branch _ _ _ h.manifest_served (
      either_branch _ _ _ h.chunks_served (
        taken_branch _ _ _ h.manifest_accepted (
          taken_branch _ _ _ h.chunk_accepted (
            either_branch _ _ _ h.signature_served (
              taken_branch _ _ _ h.signature_accepted (
                either_branch _ _ _ h.summary_served (
                  taken_branch _ _ _ h.summary_accepted
                    (taken_branch _ _ _ h.leaf_accepted h.ignored))))))))

  pub handle_packet-dispatch :
      (env : Env) (now : ℕ) (p : Packet) (r : Runtime)
      → Handled env now p r
      → P (handle_packet env now p r)
  unfolding handle_packet
  handle_packet-dispatch env now p r h = either_branch (p.source == env.id) _ _ h.ignored (
      either_branch (p.destination == broadcast) _ _
        (either_branch (p.type == Kind.summary) _ _ h.root_handled h.ignored)
        (either_branch (p.destination == env.id) _ _ (handle_addressed-dispatch env now p r h)
          h.ignored))

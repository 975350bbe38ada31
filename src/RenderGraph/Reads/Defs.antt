-- ===== src/RenderGraph/Reads/Defs.antt =====
-- The check as the code makes it. An error is named for the message that the code pushes, with the
-- pass and the resource.
use alpenite.Prelude.{
  ℕ, Bool, true, false, not, ◌&&◌, ◌||◌, List, [], ◌∷◌, ◌++◌, ◌==◌, if◌then◌else◌, update,
}
use alpenite.RenderGraph.Access.{ResourceAccess, access_is_write}
use alpenite.RenderGraph.Nodes.{PassNode}
use alpenite.RenderGraph.Resources.{ResourceNode, is_external}

pub data ReadError : Type 0 where
  writes_old_layer never_written read_modify_write read_before_write : ℕ → ℕ → ReadError

-- The tables of the check: `external`, `prevLayer`, and `hasWriter` over all declared accesses.
pub record Tables : Type 0 where
  pub external : ℕ → Bool
  pub prev_layer : ℕ → Bool
  pub has_writer : ℕ → Bool

unfoldable pub externals : List ResourceNode → (ℕ → Bool) → ℕ → Bool
unfolding is_external
externals [] t = t
externals (r ∷ resources) t = externals resources (update t r.handle.id (is_external r))

unfoldable pub prev_layers : List ResourceNode → (ℕ → Bool) → ℕ → Bool
prev_layers [] t = t
prev_layers (r ∷ resources) t =
    prev_layers resources (update t r.handle.id (r.persistent && not (r.history_index == 0)))

-- Does some access of the list write the resource?
unfoldable pub writes : List ResourceAccess → ℕ → Bool
unfolding access_is_write
writes [] id = false
writes (a ∷ accesses) id = ((a.handle.id == id) && access_is_write a.type) || writes accesses id

-- `hasWriter`, over the passes as they were declared.
unfoldable pub pass_writes : List PassNode → ℕ → Bool
unfolding writes
pass_writes [] id = false
pass_writes (p ∷ passes) id = writes p.accesses id || pass_writes passes id

unfoldable pub mark_produced : ResourceAccess → (ℕ → Bool) → ℕ → Bool
unfolding access_is_write
mark_produced a produced =
    if access_is_write a.type then update produced a.handle.id true else produced

unfoldable pub read_error : Tables → PassNode → ℕ → ReadError
unfolding writes
read_error t p id =
    if not (t.has_writer id)
    then never_written p.index id
    else if writes p.accesses id
    then read_modify_write p.index id
    else read_before_write p.index id

unfoldable pub access_errors : Tables → PassNode → (ℕ → Bool) → ResourceAccess → List ReadError
unfolding access_is_write read_error
access_errors t p produced a =
    if access_is_write a.type
    then (if t.prev_layer a.handle.id then writes_old_layer p.index a.handle.id ∷ [] else [])
    else if (a.handle.id == 0) || t.external a.handle.id || produced a.handle.id
    then []
    else read_error t p a.handle.id ∷ []

-- The errors of a pass, and what is produced after it.
unfoldable pub accesses_errors :
    Tables → PassNode → (ℕ → Bool) → List ResourceAccess → List ReadError × (ℕ → Bool)
unfolding access_errors mark_produced
accesses_errors t p produced [] = ([], produced)
accesses_errors t p produced (a ∷ accesses) =
    let (errors, after) = accesses_errors t p (mark_produced a produced) accesses in
    (access_errors t p produced a ++ errors, after)

unfoldable pub passes_errors : Tables → (ℕ → Bool) → List PassNode → List ReadError
unfolding accesses_errors
passes_errors t produced [] = []
passes_errors t produced (p ∷ passes) =
    let (errors, after) = accesses_errors t p produced p.accesses in
    errors ++ passes_errors t after passes

-- The whole check, over the declared passes and the schedule. No error means that compile() goes on.
unfoldable pub read_errors : List ResourceNode → List PassNode → List PassNode → List ReadError
unfolding passes_errors externals prev_layers pass_writes
read_errors resources declared order =
    passes_errors
      (record {
        external = externals resources (λ _. false);
        prev_layer = prev_layers resources (λ _. false);
        has_writer = pass_writes declared;
      })
      (λ _. false) order

-- ===== src/Traffic/Connections.antt =====
-- matchingConnectionIDs, over the connections of one snapshot.
use opensurge_fnos.Base.{Bool, List, [], false, if◌then◌else◌, not, true, ◌&&◌, ◌||◌, ◌∷◌}
use opensurge_fnos.Device.Policy.{has}
use opensurge_fnos.Text.{Text, is_empty, text_eq, trim_space}

-- Of a connection, what the functions here read.
pub record Connection : Type 0 where
  pub id : Text
  pub chains : List Text

module _ (matches : Connection → Bool) where
  -- The loop, with the IDs seen so far.
  unfoldable pub matching_ids : List Text → List Connection → List Text
  unfolding has trim_space
  matching_ids seen [] = []
  matching_ids seen (c ∷ cs) =
      let id = trim_space c.id in
      let skipped = matching_ids seen cs in
      let taken = matching_ids (id ∷ seen) cs in
      if is_empty id || not (matches c)
      then skipped
      else if has id seen
      then skipped
      else id ∷ taken

  unfoldable pub matching_connection_ids : List Connection → List Text
  unfolding matching_ids
  matching_connection_ids cs = matching_ids [] cs

  -- The connection carries that ID and is one to close.
  unfoldable pub is_wanted : Text → Connection → Bool
  unfolding trim_space text_eq
  is_wanted id c = text_eq id (trim_space c.id) && matches c

  unfoldable pub any_wanted : Text → List Connection → Bool
  unfolding is_wanted
  any_wanted id [] = false
  any_wanted id (c ∷ cs) = is_wanted id c || any_wanted id cs

-- No text twice.
unfoldable pub distinct : List Text → Bool
unfolding has
distinct [] = true
distinct (t ∷ ts) = not (has t ts) && distinct ts

-- ===== src/User/Opcodes.antt =====
-- guacamole/src/libguac/user.c: the dispatch of any instruction, by what it does to the input streams.
use occamy.Base.{
  ℕ, ◌<◌, ◌≡◌, ◌∙◌, refl, sym, ap, subst, if◌then◌else◌, on_branches, Bool, true, false, ◌||◌,
  Bool-cases, inl, inr, Option, some, none, List, [], ◌∷◌, codes, equal, equal→eq,
}
use occamy.Base
use occamy.Base.Int.{ℤ}
use occamy.User.Session.{Call, Session}
use occamy.User.Inputs.{argument, is_set}
use occamy.User.Handlers.{defined_object}
use occamy.User.Dispatch.{Handler, find_handler, handler_map, handle_instruction}
use occamy.User.Effects.{
  Effect, opens, closes, keeps, Effects, HasStreams, KeepsStreams, Effects-refl,
}
use occamy.User.Keeping.{
  mouse_lem, key_lem, size_lem, sync_lem, ack_lem, blob_lem, get_lem, disconnect_lem,
}
use occamy.User.Lifecycle.{clipboard_lem, file_lem, pipe_lem, put_lem, end_lem}

module _ (atoi : Base.Bytes → ℤ) (callback : Call → Session → ℤ × Session) where
  -- What an instruction is to do to the input streams: three open the stream of their first argument, `put`
  -- that of its second where its object is defined, and `end` closes that of its first.
  abbrev pub effect_of : Base.Bytes → List Base.Bytes → Session → Effect
  effect_of opcode argv session =
      if equal opcode (codes "clipboard")
        || (equal opcode (codes "file") || equal opcode (codes "pipe"))
      then opens (atoi (argument argv 0))
      else if equal opcode (codes "put")
      then (if is_set (defined_object atoi callback session (atoi (argument argv 0)))
          then opens (atoi (argument argv 1))
          else keeps)
      else if equal opcode (codes "end")
      then closes (atoi (argument argv 0))
      else keeps

  -- One entry of the map, against what all opcodes are to do.
  entry_lem :
      (name : Base.Bytes) (handler : Handler) (handlers : List (Base.Bytes × Handler))
      (opcode : Base.Bytes) (argv : List Base.Bytes) (s : Session)
      → Effects (effect_of name argv s) s (handler argv s).1
      → (equal opcode name ≡ false
          → Effects (effect_of opcode argv s) s (find_handler handlers opcode argv s).1)
      → Effects
          (effect_of opcode argv s)
          s
          (find_handler ((name, handler) ∷ handlers) opcode argv s).1
  unfolding find_handler
  entry_lem name handler handlers opcode argv s found others =
      on_branches (λ (r : ℤ × Session). Effects (effect_of opcode argv s) s r.1) (equal opcode name)
        _ _
        (λ same.
          subst (λ o. Effects (effect_of o argv s) s (handler argv s).1)
            (sym (equal→eq opcode name same)) found)
        others

  unknown_lem :
      (opcode : Base.Bytes) (argv : List Base.Bytes) (s : Session)
      → equal opcode (codes "clipboard") ≡ false
      → equal opcode (codes "file") ≡ false
      → equal opcode (codes "pipe") ≡ false
      → equal opcode (codes "end") ≡ false
      → equal opcode (codes "put") ≡ false
      → Effects (effect_of opcode argv s) s (find_handler [] opcode argv s).1
  unfolding find_handler
  unknown_lem opcode argv s c f p e u = rw (c, f, p, u, e) (Effects-refl s)

  -- Every instruction, known or not, opens and closes exactly the input streams that its opcode and its
  -- arguments say: a stream that is opened has its number as its index, and an index outside of the
  -- array does nothing, if the array has its 64 streams and no handler of other code changes an
  -- index itself.
  pub handle_instruction-Effects :
      (keeps_streams : KeepsStreams callback) (current : ℤ) (opcode : Base.Bytes)
      (argv : List Base.Bytes) (s : Session)
      → HasStreams s
      → Effects
          (effect_of opcode argv s)
          s
          (handle_instruction atoi callback current opcode argv s).1
  unfolding handle_instruction handler_map equal
  handle_instruction-Effects k current opcode argv s size =
      entry_lem _ _ _ opcode argv s (sync_lem atoi callback k s current argv) (λ _.
        entry_lem _ _ _ opcode argv s (mouse_lem atoi callback k s argv) (λ _.
          entry_lem _ _ _ opcode argv s (key_lem atoi callback k s argv) (λ _.
            entry_lem _ _ _ opcode argv s (clipboard_lem atoi callback k s size argv) (λ c.
              entry_lem _ _ _ opcode argv s (disconnect_lem atoi callback k s argv) (λ _.
                entry_lem _ _ _ opcode argv s (size_lem atoi callback k s argv) (λ _.
                  entry_lem _ _ _ opcode argv s (file_lem atoi callback k s size argv) (λ f.
                    entry_lem _ _ _ opcode argv s (pipe_lem atoi callback k s size argv) (λ p.
                      entry_lem _ _ _ opcode argv s (ack_lem atoi callback k s argv) (λ _.
                        entry_lem _ _ _ opcode argv s (blob_lem atoi callback k s argv) (λ _.
                          entry_lem _ _ _ opcode argv s (end_lem atoi callback k s size argv) (λ e.
                            entry_lem _ _ _ opcode argv s (get_lem atoi callback k s argv) (λ _.
                              entry_lem _ _ _ opcode argv s (put_lem atoi callback k s size argv)
                                (λ u. unknown_lem opcode argv s c f p e u)))))))))))))

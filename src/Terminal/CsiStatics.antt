-- ===== src/Terminal/CsiStatics.antt =====
-- The functions of control sequences leave the parameters as they are
-- (guacamole/src/protocols/ssh/terminal_handlers.c).
use occamy.Base.{◌≡◌, refl, arith}
use occamy.Terminal.State.{Terminal, move_cursor}
use occamy.Terminal.Tabs.{unset_tab, clear_tabs}
use occamy.Terminal.Csi
use occamy.Terminal.Cases.{set_flag}
use occamy.Terminal.Csi.{
  CsiFunction, csi_byte, csi_function, perform_csi, end_sequence, end_parameter,
}

-- A function of control sequences leaves the statics as they are.
pub perform_csi-statics :
    (function : CsiFunction) (term : Terminal) → (perform_csi function term).statics ≡ term.statics
unfolding perform_csi set_flag move_cursor unset_tab clear_tabs
perform_csi-statics Csi.insert_characters term = ground arith
perform_csi-statics Csi.move_up term = refl
perform_csi-statics Csi.move_down term = refl
perform_csi-statics Csi.move_right term = refl
perform_csi-statics Csi.move_left term = refl
perform_csi-statics Csi.lines_down term = refl
perform_csi-statics Csi.lines_up term = refl
perform_csi-statics Csi.column_absolute term = refl
perform_csi-statics Csi.position term = refl
perform_csi-statics Csi.erase_display term = ground arith
perform_csi-statics Csi.erase_line term = ground arith
perform_csi-statics Csi.insert_lines term = refl
perform_csi-statics Csi.delete_lines term = refl
perform_csi-statics Csi.delete_characters term = ground arith
perform_csi-statics Csi.erase_characters term = refl
perform_csi-statics Csi.identify term = ground arith
perform_csi-statics Csi.row_absolute term = refl
perform_csi-statics Csi.clear_tab term = ground arith
perform_csi-statics Csi.set_mode term = ground arith
perform_csi-statics Csi.reset_mode term = ground arith
perform_csi-statics Csi.graphics_rendition term = refl
perform_csi-statics Csi.status_report term = ground arith
perform_csi-statics Csi.scrolling_region term = ground arith
perform_csi-statics Csi.save_cursor term = refl
perform_csi-statics Csi.restore_cursor term = refl
perform_csi-statics Csi.ignored term = refl

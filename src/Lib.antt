-- ===== src/Lib.antt =====
-- A model of the core of velacritty, a terminal emulator: the library velacritty_terminal, from the
-- rows of cells up to the handlers of the terminal, and of the application the scheduler, the
-- message bar and the shortening of texts.
--
-- The parts and how they interact. A grid (velacritty_terminal/src/grid/mod.rs) owns a storage
-- (grid/storage.rs), a ring buffer of rows (grid/row.rs) that holds the screen and the history, and
-- two cursors. It scrolls by turning the ring and by exchanging rows, and it resets the rows that
-- come free. Points of the grid and their arithmetic are in index.rs. The terminal (term/mod.rs) has
-- a primary and an alternate grid of the cells of term/cell.rs, a selection (selection.rs), the vi
-- cursor (vi_mode.rs), tab stops, modes, stacks of titles and of keyboard modes, and the damage since
-- the last frame; each escape sequence calls one of its handlers.
--
-- Files:
--   Prelude        names of the libraries passed on, Boolean tests, lists with native indices
--   Prelude/Slices, Prelude/Rings  Rust's slices; windows on a list that is read round its end
--   Prelude/Int, Prelude/Word      integers; i32 and usize arithmetic with the wrap written out
--   Index          velacritty_terminal/src/index.rs: Direction, Boundary, Point, Dimensions
--   Index/Lines, Index/Points      Line::grid_clamp; Point::sub, add, grid_clamp, cmp
--   Index/Bounds, Index/Travel     where clamping leaves a point; going on and back
--   Prelude/Shifts, Prelude/Bitflags  loops that move the elements of a slice; sets of flags
--   Grid/Cell      the traits GridCell and ResetDiscriminant as an interface with laws
--   Grid/Row       grid/row.rs; Grid/Row/Reset and Grid/Row/Split have its theorems
--   Grid/Storage   grid/storage.rs; below it Index finds lines, View has the rows in use, Lines the
--                  operations that turn the ring or change its size
--   Grid           grid/mod.rs: the state, the history, the viewport, scroll_up and scroll_down
--   Grid/Ranges, Grid/Loops, Grid/SwapLoop, Grid/ResetLoop, Grid/MovesUp
--                  the loops of the grid over lines, and what they do to the rows in use
--   Grid/Wellformed, Grid/ScrollUp, Grid/Viewport
--                  well-formed grids, and the theorems on scrolling
--   Grid/Cells, Grid/Clear, Grid/Resize
--                  grid/mod.rs: single cells and the cell iterator, clearing and resetting;
--                  grid/resize.rs: the number of lines; Grid/Clear/Ends the loop of clear_viewport
--   Grid/Row/Slices, Grid/Frame    writes to a part of a row; what writing and scrolling leave alone
--   Term/External  what the terminal takes from the crates vte and unicode-width
--   Term/Flags, Term/Cell, Term/Cell/Extra  term/cell.rs: the cells
--   Term/Mode, Term/State          term/mod.rs: TermMode, Term, Config, and shared parts of the handlers
--   Term/Scroll, Term/Cursor       term/mod.rs: the handlers that scroll and that move the cursor
--   Term/Cursor/Inside, Term/Cursor/Lines, Term/Cursor/Places, Term/Cursor/Writes
--                  the cursor on the screen: the invariant, line breaks and tabs, writes, input
--   Term/Cursor/Steps, Term/Cursor/Regions, Term/Cursor/Resets, Term/Cursor/Screens, Term/Cursor/Moves
--                  single handlers, scroll regions, clearing and filling, screens and modes, all of these
--   Term/Input, Term/Edit, Term/Edit/Rows   term/mod.rs: input; the handlers that edit a line
--   Term/Screen, Term/Screen/Swap, Term/Screen/Above
--                  term/mod.rs: clearing, resetting, the alternate screen, colours
--   Term/Stacks, Term/Stacks/Titles, Term/Stacks/Keyboard
--                  term/mod.rs: the stacks of titles and of keyboard modes
--   Term/Attributes, Term/Modes, Term/Options
--                  term/mod.rs: the template of the cursor; setting of modes; construction and options
--   Term/View      term/mod.rs: the damage of a frame, the vi mode, scrolling to a point
--   Term/Search, Term/Search/Wrapped, Term/Selected
--                  term/search.rs without patterns; its wrapped lines; Selection::to_range
--   Term/ViMode, Term/ViMode/Motion  vi_mode.rs: the motions
--   Term/ViewPoints, Term/TabStops  term/mod.rs: points of the viewport; the tab stops
--   Term/Damage    term/mod.rs: the damage since the last frame; below it Bounds has the bounds of
--                  the lines, Covers what they cover, Visible what the iterator yields
--   Selection      selection.rs: the state, containment, emptiness; Selection/Contains and
--                  Selection/Emptiness have the theorems, Selection/Rotate the rotation
--   Scheduler      velacritty/src/scheduler.rs: the timers and their operations
--   Scheduler/Queue, Scheduler/Update, Scheduler/Cancel
--                  the place of a new timer; the loop of update; scheduling and cancelling
--   Shortener      velacritty/src/string.rs: the constructor and the iterator; Shortener/Left has the
--                  texts that are cut towards their start, Shortener/Fits those that fit
--   MessageBar     velacritty/src/message_bar.rs: the queue of messages and their text in lines
--   Display/Damage velacritty/src/display/damage.rs: the damage of a frame that is drawn
--   Tests          runs on concrete data, and the theorems at such data
--
-- How the code is read. A method that changes `self` is a function to the new state. An `i32` is an
-- integer, a `usize` a natural number; sums, differences and casts wrap as in a release build.
-- Lengths of vectors are natural numbers. An access out of bounds panics in the code: in the model a
-- read gives `none` and a write changes nothing, and the theorems on well-formed states show the
-- accesses that they are about to be in bounds. Debug assertions are not modelled. `Vec::resize_with`
-- with `Row::new` is a resize with equal rows. The cells are a parameter: the trait's operations,
-- and the laws that a reset obeys where a theorem needs them. Character sets belong to the crate vte
-- and are a parameter. The loops of the grid
-- are recursions on the list of lines that a range has. The loop of Scheduler::update takes fuel: as
-- many rounds as timers are due are enough when the intervals of the timers that repeat are
-- positive. Its clock is a function from the number of a reading to nanoseconds, and an identifier
-- of a window belongs to the crate winit, with its test of equality as a parameter. The width of a
-- character, of the crate unicode-width, is a parameter too.
-- The types of the crate vte (colours, keyboard modes, character sets, cursor shapes) and texts are a
-- parameter of the terminal, a record with the few operations that the handlers use; a character is
-- its code point. A value of the crate bitflags is a set of positions of bits. The events that a
-- handler sends are a list in the terminal's state. Loops along the cells of the grid take fuel, one
-- round more than the grid has cells; loops along lines that wrap take as many rounds as there are
-- lines in their direction, and Grid::clear_viewport one round more than the screen has cells.
--
-- Not modelled: the reflow of columns on a resize and the resize of Term, the reports to the pty and
-- the clipboard, the text of a selection, and the search for patterns, which rests on the crate
-- regex_automata. The rest of rendering, the configuration, the event loop and the pty are
-- input and output, and are left out.
pub mod Display
pub mod Grid
pub mod Index
pub mod MessageBar
pub mod Prelude
pub mod Scheduler
pub mod Selection
pub mod Shortener
pub mod Term
pub mod Tests

-- ===== src/Lib.antt =====
-- The browser client of multimux (web/src): the logic of its grid of terminals, apart from React.
--
-- The daemon reports sessions, and stores one layout: which session stands in which tile. A browser
-- filters that layout by directory, reorders the rest by a stored overlay, and translates edits back
-- through the places of the tiles on screen. It hears of changes through one events socket for each
-- server, and asks the daemons' HTTP interfaces for the rest.
--
-- Base holds what the files share: lists and tests over the native numbers, strings as lists of
-- UTF-16 code units, a stable sort, decimals, JSON values and integers.
-- Grid (web/src/grid) has a file for each of its sources:
-- Sizes for sizes.ts, Model for model.ts, Types for types.ts, View for filterLayout of dirFilter.ts
-- and for viewLayout.ts, DirFilter for the rest of dirFilter.ts, Mobile for mobileModel.ts, and
-- Ended for endedSessions.ts. A function keeps its name, respelled: setColSizes is set_col_sizes.
-- Page (GridPage.tsx) has LayoutSync and SessionSync, which keep the page and the daemons in step,
-- and Screen and Header, what the page shows and the edits of its buttons. Launcher is
-- useSessionLauncher.ts,
-- Picker is DirPicker.tsx (Rows for its lists, State for its state and keys), and Dividers is
-- GridDividers.tsx. MobileView is MobileSessionView.tsx. View.Storage has what viewLayout.ts stores.
-- Events is web/src/useEvents.ts, Api is web/src/api.ts, Servers is web/src/servers.ts, ClientId is
-- web/src/clientId.ts, Settings.Reorder is web/src/settings/useReorder.ts, and Term (web/src/term)
-- has TouchScroll for touchScroll.ts, Unwrap for unwrap.ts, Upload for upload.ts, ReflowGate for
-- reflowGate.ts, Wrap for wrap.ts, Links for links.ts, and Tile for the socket, the input and the
-- size of TerminalTile.tsx. Small has grid/mobileFontSize.ts,
-- pages/openerOrigin.ts and term/protocol.ts. Closures and React state that change over time are a
-- record, what calls back is a data type of events, and a handler gives the next record and a list
-- of effects on the page or the network.
--
-- Numbers: indices, counts and column counts are natural numbers. Track sizes are doubles in the
-- source; they are an abstract type with the operations that the code calls (Grid.Numbers). Touch
-- positions are whole pixels, times are whole milliseconds.
-- Records that the source keys by strings are functions or association lists, a Map is a list in
-- insertion order, and a value that can be null or undefined is an Option. Where an index out of
-- range makes the source store undefined, the model gives none. Local storage holds a parsed value.
-- What the browser decides is a parameter: the order of localeCompare, fetch, JSON.parse and
-- JSON.stringify. A message of the events socket is its type and build, where they are texts. Every
-- loop is a recursion on a list or on a row's number; two functions take fuel: decimal, whose fuel
-- is
-- the number and one more, and bottom_of of Term.Links, whose fuel is the number of rows
-- (Term.Links.Stops).
--
-- The proofs about the layout's synchronisation take one page that writes, and writes that do not
-- fail;
-- requests and answers may overtake one another.
--
-- Not modelled: rendering, the other React components and their effects, uploads from a terminal's
-- tile, tileRect, the Go daemon.
pub mod Api
pub mod Base
pub mod ClientId
pub mod Events
pub mod Grid
pub mod Servers
pub mod Settings
pub mod Small
pub mod Term

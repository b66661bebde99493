-- ===== src/Lib.antt =====
-- The SDR receiver of this repository: a radio's samples go through a circular buffer to a decoder, and
-- what is decoded goes to a web page, a packet feed and a test harvester. This library models the
-- Python program under src/stream_web/ and run_stream.py, one module tree for each part.
--
--   IqRing     the shared circular buffer: `_BufferSink.work` writes (gnuradio_rx.py), `_extract_last`
--              (processor.py) and `_capture_iq` (app.py) read. IqRing/Window says what a ring holds.
--   Rx         the receive thread: connecting, tuning, the device that is tuned (Rx/Device), `work` with
--              the overflow log (Rx/Sink), its end (Rx/Loop), and the supervisor of run_stream.py (Rx).
--   Capture    `_capture_iq` of app.py against a world of ticks, and the routes that call it under
--              `_capture_lock` (Capture/Route).
--   Decoder    what is taken from the package hubble_satnet_decoder, which is not in the repository.
--   Timing     symbol edges and their statistics, timing.py.
--   TdCapture  the selection of a packet for the time-domain plot, td_capture.py.
--   Processor  `processor_main`, processor.py: lost samples (Drops), repeats (Dedup), the boxes of the
--              spectrogram (History), the entries of the feed (Entries), the cycle that is made of them
--              (Cycle) and the cycles together with the poll of the feed (Cycle/Delivery).
--   Workers    `_worker_watchdog` of app.py, and the start of the program in `main` (Workers/Startup).
--   Results    `_drain_results`, `/api/packets` and `/api/reset` of app.py, and the render loops of
--              td_renderer.py and spectrum_renderer.py (Results/Render), and the downloads of a capture
--              (Results/Downloads).
--   Api        the replies of `/api/packets` (Api/Packets) and `/api/status` (Api/Status), app.py.
--   Hitl       the annotator's queue, counters and thread, hitl.py, and what it posts (Annotation).
--   Analysis   windows, duplicates and packets of a recording, analysis.py, the data of its report and the
--              lines of the text (Analysis/Report/Text).
--   Fcc        the compliance check, spectrogram.py: the traces it is made on and the reply of
--              `/api/fcc_check` of app.py (Fcc/Spectrum), and the spectrum view (Fcc/Overlay).
--   Plots      what the plots of spectrogram.py say: the spectrogram (SpecImage) and its boxes (Boxes), the
--              hops of a packet (Overlay), the segments of an envelope (Envelope), the symbol zoom (Zoom),
--              the time-domain plot and its statistics (TdPlot).
--   Control    the shared settings and the routes that change them, app.py.
--   Tx         the transmitter, gnuradio_tx.py, and its routes in app.py: the requests that drive it, one
--              after another (Tx/Requests), and the files it sends (Tx/Files).
--   Mock       the packets of `_mock_injector` of app.py.
--   Config     the constants of config.py and app.py.
--   Base       lists, options, integers and floats that the others share.
--
-- A dictionary of a packet is the record `Attempt`, a missing key `none`; a Python object that code
-- changes in place is a record passed from state to state; threads and processes are events in some
-- order or, for a capture, a world that shows the ring and the clock at each tick. Floats are the
-- record `FloatOps`, with no laws assumed; a theorem that needs one has it as a hypothesis.
--
-- Fuel: the wait loop of a capture takes ticks as fuel, and one tick more than it takes half a buffer
-- to come is enough; the chunks of a capture are at most as many as its samples; `_connect` takes an attempt of fuel for each attempt it may make; `range` takes its stop.
--
-- Not modelled: drawing (matplotlib, PIL, numpy), Flask's own work, JSON, the digits and wording of a
-- line of text, the environment, forking and joining processes, and the decoder package. Median,
-- percentile, logarithms, spectra, smoothing, peak search, means, deviations and hashes are parameters
-- of the definitions that use them, and so are the decoder, the decoding of UTF-8 and the clocks of a
-- processor cycle. That scipy's `filtfilt` refuses an input no longer than its padding is modelled.
pub mod Base
pub mod Config
pub mod IqRing
pub mod Capture
pub mod Decoder
pub mod Timing
pub mod TdCapture
pub mod Mock
pub mod Plots
pub mod Processor
pub mod Workers
pub mod Results
pub mod Rx
pub mod Hitl
pub mod Analysis
pub mod Api
pub mod Fcc
pub mod Control
pub mod Tx

-- ===== src/Lib.antt =====
-- A model of the G.729 Annex A speech codec of this repository, package by package, with the
-- theorems that make its parts correct.
--
-- Samples, gains and accumulators are integers (Base/Int.antt) with Go's conversions and shifts
-- written out; codewords and bytes are natural numbers; slices and arrays are lists, and a function
-- that writes through one returns the new list. A loop with a fixed count recurses on it. Besides
-- the loops named below, the one loop with fuel is the counting of shifts in
-- internal/fixed/norm.go; it has as much fuel as a word has bits.
--
-- * Bitstream.antt and below: internal/bitstream, the 80-bit frame. BitIo.antt holds the bit writer
--   and reader of bitio.go; Pack, Unpack and Parity stand in Bitstream.antt.
-- * Bitstream/G192.antt and below: internal/bitstream/g192.go, frames in G.192 files. A reader is
--   the list of the bytes it has left; a file is read with fuel for one round more than it has
--   bytes.
-- * Encoder.antt and below: the root package's EncodeFrame (encoder.go), Write and Flush
--   (encoder_streaming.go). The search for the parameters of a frame (lpcStep, openloopStep,
--   closedloopStep, buildBitstreamFrame) is a parameter, from the codec state and 80 samples to the
--   new state and a frame or an error, and the sink is one; EncodeFrame packs the frame with Pack.
--   The loop of Write has fuel for one round more than there are samples.
-- * Rtpcheck.antt and below: internal/rtpcheck/rtpcheck.go, the checks of RTP payloads
--   (PacketFrameCount, ValidatePayload) and the parser of RTP packets (ParseRTP), against the
--   layout of a packet in Layout.antt.
-- * Pcm.antt and below: internal/pcm, the filter before the encoder (coeffs.go, preprocessor.go)
--   and the scaling behind the decoder (scale.go), on the arithmetic of Fixed.
-- * Lsp.antt and below: internal/lsp, the decoder's side. Stability.antt holds the rules for an LSF
--   vector (stability.go), Predictor.antt the residual and the predictor (codebook.go,
--   predictor.go), Convert.antt the way to the filters (lsf_lsp.go, interpolate.go, lsp_lp.go), and
--   Lsp.antt the decoder (decoder.go, types.go); Frames.antt has its step relation, a good or a
--   lost frame.
-- * Lsp/Encoder.antt and below: internal/lsp, the encoder's side: the predictor and the weights
--   (encoder_init.go, encoder_predictor.go, encoder_weights.go) in Encoder.antt, the quantizers
--   (encoder_vq.go) in Search.antt and Quantize.antt, the way from the filter to the LSF vector in
--   Roots.antt (lp_lsp.go) and Angle.antt (lsp_lsf.go). The caller's memory of the predictor is
--   passed in and out. The bisection of lspToLSF has fuel for 15 rounds, which is more than a range
--   of 25736 needs.
-- * Gain.antt and below: internal/gain, the decoder of the gains: the codebooks, the energy and the
--   predictor in Gain.antt, the table functions in Gain/Log.antt (log2.go, pow2.go), the split of a
--   gain in Gain/Split.antt (pow2.go), Decode and MarkErasure in Gain/Decode.antt (decode.go). The
--   loops of splitGainQ14 recurse on the rounds that the bounds of the exponent leave.
-- * Synth.antt and below: internal/synth, the excitation (excitation.go) and the synthesis filter
--   (filter.go, synthesizer.go, types.go). The overflow flag of internal/fixed is passed along
--   beside the samples; the second run on the scaled excitation is taken where the first has set
--   it.
-- * Postfilter.antt and below: internal/postfilter: the chain and its short filters in
--   Postfilter.antt, the pitch filter in LongTerm.antt (longterm.go), Tilt.antt (tilt.go) and
--   Agc.antt (agc.go); Correlation.antt, Lag.antt and Root.antt hold lemmas on the search for the
--   lag and on the square root. The doubling of a normalized number has fuel for the 30 bits below
--   its limit, and the square root has as much fuel as its argument.
-- * Decoder.antt and below: internal/decoder: Decode in Decoder.antt (decode.go), the state in
--   Decoder/State.antt (types.go), the subframes in Subframe.antt and Erasure.antt (subframe.go),
--   the output filter in HpFilter.antt (hpfilter.go), and DecodeFrame of the root package in
--   Public.antt (decoder_root.go). It calls Bitstream, Lsp, Gain, Pitch, Fcb, Synth and Postfilter
--   in the order of the code.
-- * Tables.antt and below: internal/tables, the tables that the decoder reads.
-- * Fixed.antt and below: internal/fixed, the arithmetic that all signal code calls: Saturate
--   (saturate.go, arith16.go, arith32.go, extract.go, round.go, overflow.go), Shift (shift16.go,
--   shift32.go), Mult (mult.go), Norm (norm.go), Div (div.go).
-- * Pitch.antt and below: internal/pitch and internal/pitch/closedloop: Delay (delay.go, encode.go,
--   window.go), Parity (parity.go) and Adaptive (adaptive.go).
-- * Fcb.antt and below: internal/fcb, the decoder's fixed codebook, and the encoder's packing of it
--   in internal/fcbsearch (pack.go, code.go). It calls Fixed for the filter.
-- * Fcbsearch.antt and below: internal/fcbsearch, the encoder's search of the fixed codebook: the
--   exhaustive search and the signs in Fcbsearch.antt (search.go, signs.go), its 128-bit comparison
--   in Wide.antt, the search above a threshold in Threshold.antt, the list of candidates in
--   TopK.antt, and in Filters.antt what prepares the search and filters its result (correlation.go,
--   phi.go, filtcode.go).
-- * Gainquant.antt and below: internal/gainquant, the encoder's side of the gains: the prediction,
--   the memory, the limit and the codewords in Gainquant.antt (predictor.go, tame.go, pack.go), the
--   search of the two codebooks in Search.antt (conjugate.go). The length of a number in bits has
--   fuel for 64 halvings. Its files Bounds.antt and Peaks.antt hold lemmas on the sizes of the
--   costs.
--
-- Base.antt and below hold what these share: tests, lists, integers, bits.
--
-- Not modelled: the encoder's analysis and searches (internal/lpc, internal/filter,
-- internal/pitch/openloop, internal/pitch/closedloop) and its tables, which are the part that is
-- left; the diagnostic paths of the decoder and the postfilter, which repeat the same stages and
-- record their values; the center of the gain search in floating point (floatGainOptimumCenter),
-- since float64 has no model here; the commands and examples, which are flags, files and sockets
-- around these packages. Outside the synthesis filter nothing reads the overflow flag, and it is
-- not threaded through.
pub mod Base
pub mod Bitstream
pub mod Fixed
pub mod Tables
pub mod Pitch
pub mod Lsp
pub mod Gain
pub mod Synth
pub mod Postfilter
pub mod Decoder
pub mod Fcb
pub mod Fcbsearch
pub mod Gainquant
pub mod Encoder
pub mod Pcm
pub mod Rtpcheck

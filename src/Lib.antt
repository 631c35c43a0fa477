-- ===== src/Lib.antt =====
-- The kernel drivers of the PicoCalc, under
-- meta-picocalc-bsp-rockchip/recipes-kernel/linux/files/picocalc (below: the folder).
--
-- The PicoCalc is a handheld with a controller on I2C that serves keyboard, battery and lights,
-- an ILI9488 panel on SPI, and a PWM pin for sound.
--
-- Prelude passes on the library's names and holds the shared lemmas: lists and their windows,
-- the Boolean tests, results with errno values, integers, bit fields. Regmap is the kernel's
-- register map, a parameter of everything that talks to the controller. Kernel is how a probe is
-- written down: the kernel's answers are its parameters, and its state, which says what the
-- driver holds, is kept also where it returns an error. Gpio is the request of one pin, the same
-- code in the display and in the software PWM driver.
--
-- Lcd models picocalc_lcd/ili9488_fb.c. Lcd/Panel is the state that the run-time paths use
-- (struct ili9488_par with the parts of fb_info) and what goes to the panel: pin levels, SPI
-- transfers, delays. Lcd/Command: registers, start-up sequence, address window. Lcd/Vmem:
-- write_vmem; its loop is shared with Lcd/Dither, write_vmem_3bit and write_vmem_3bit_dither.
-- The loop runs on fuel, one round more than pixels; Lcd/Vmem/Ends says when that is enough.
-- Lcd/Update: update_display. Lcd/Dirty: mkdirty, deferred_io, the drawing operations, fb_write;
-- the kernel's drawing routines and fb_sys_write are parameters. Lcd/Shown keeps, of each line,
-- the bytes last sent in each mode, read back from the address window and the pixels of each
-- update, over drawing calls, writes, writes through a mapping and refreshes. Lcd/Race cuts the
-- drawing calls, mkdirty and deferred_io at their locks, pixel by pixel, and interleaves any
-- number of threads with the refresh, in every mode; a read there is the fetch of a pixel for
-- the transmit buffer. Lcd/Palette: setcolreg and fb_blank. Lcd/Gray and Lcd/Dither/Small: the
-- grayscale functions and the smaller matrices, which nothing uses. Unsigned arithmetic is
-- written out modulo 2 ^ 32. Reads and writes outside an array, which the code does not guard,
-- read 0 and write nothing. The hypotheses on the transmit buffer exclude them there; the
-- screen's memory, which the probe allocates for all lines, is covered by keeping the refreshed
-- lines on the display. Lcd/Probe: ili9488_probe and ili9488_remove. A `goto alloc_fail` is
-- there the error 0, the value that the probe returns for it.
--
-- Kbd models picocalc_mfd_kbd/picocalc_mfd_kbd.c: Kbd/Fifo the FIFO read, Kbd/Dirs the bits of
-- mouse_move_dir, Kbd/Pointer the arrow keys and the pointer, Kbd/Mfd the event handler and the
-- work handler. The scancode table and the clock are parameters there; Kbd/Mfd/Codes and
-- Kbd/Legacy/Codes are the tables of the two picocalc_kbd_code.h, with the names of Kbd/Codes.
-- Kbd/Poll is what the two drivers' input_probe, kbd_timer_function and input_shutdown have in
-- common, for a context and a handler of either: an armed timer may fire, and a queued work may
-- run, at any time; a use of the null pointer or of memory that is released is recorded.
-- Kbd/Mfd/Life has the probe and the remove. Kbd/Batch is the loop of the work handler and
-- Kbd/Valid what is well formed. Kbd/Delivery runs a work handler of either driver against the
-- firmware's queue (Kbd/Queue), a documented FIFO register, with keys typed in between;
-- Kbd/Mfd/Delivery and Kbd/Legacy/Delivery fill in the two handlers.
--
-- Snd models picocalc_snd-softpwm/picocalc_snd_softpwm.c (Snd/Soft: two timers, a pin) and
-- picocalc_snd-pwm/picocalc_snd_pwm.c (Snd/Hard: one timer, a PWM channel). A timer is the time
-- at which it is due, if it is armed; timer firings and commands are steps. Snd/Soft/Clock puts
-- both timers on one clock, where the one that is due first fires first. Snd/Cursor and
-- Snd/Register (picocalc_snd_register) are what they share; Snd/Soft/Life and Snd/Hard/Life are
-- the probes and removes. Snd/Pcm is the sound core's side: a substream with its states, the
-- calls of a driver's PCM operations as steps, and the laws that a driver owes (Snd/Pcm/Driver),
-- which Snd/Soft/Pcm and Snd/Hard/Pcm give for the two drivers; the core's buffer allocation is
-- a parameter. Snd/Pcm/Overlap cuts a callback after its test of is_on, and Snd/Pcm/Suspend adds
-- a suspend of the system. Snd/Ring is the ring as a window on the stream that user space
-- writes, and Snd/Hard/Playback and Snd/Soft/Playback (with Snd/Soft/Player) run writer,
-- commands and timers of each driver together.
--
-- Mfd models picocalc_mfd/picocalc_mfd.c (Mfd/Core) and its children on the register map:
-- picocalc_mfd_bms (Mfd/Battery), picocalc_mfd_bkl (Mfd/Backlight), picocalc_mfd_led (Mfd/Led),
-- with the probes of the three in Mfd/Children. Mfd/Lights puts the two light drivers on one bus
-- with the firmware's buttons, next to a specification of the levels, and Mfd/Blanked follows a
-- blanked screen.
--
-- Kbd/Legacy models picocalc_kbd/picocalc_kbd.c, the stand-alone driver over SMBus, with the
-- FIFO loop, arrow keys and pointer of the other driver, which are the same code:
-- Kbd/Legacy/Defs the events, Kbd/Legacy/Sysfs the sysfs values and the restart handler,
-- Kbd/Legacy/Life the probe, the sysfs directory and the shutdown.
--
-- Not modelled: locks, but in Lcd/Race, since each handler runs as one step elsewhere; the times
-- at which the kernel runs work queues and timers; a timer callback that is under way during a
-- shutdown of a keyboard driver or a remove of a sound driver; a start command inside a remove;
-- hrtimer_init on a timer that is still queued (the playbacks start with idle timers); writes of
-- the display's module parameters after its probe; fbtft_property_value, which nothing calls;
-- the constant tables that describe a driver to the kernel; picocalc_lcd/tests, a manual test
-- program; layers, recipes and device trees.
pub mod Prelude
pub mod Kernel
pub mod Gpio
pub mod Regmap
pub mod Kbd
pub mod Lcd
pub mod Snd
pub mod Mfd
